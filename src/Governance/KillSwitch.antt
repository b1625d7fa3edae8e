-- ===== src/Governance/KillSwitch.antt =====
-- app/governance/kill_switch.py: the Redis store of the live switches, and `kill_switch`, which
-- flips one and records an event. The key of a tenant is its id; a time is a number of seconds.
use reg_engine_ai.Base.{
  ℕ, String, Bool, true, false, not, Option, none, some, List, [], ◌∷◌, ◌++◌, Result, ok, err, Dict,
  lookup, insert, erase, sadd, srem, str_eq, if◌then◌else◌,
}

pub data KillSwitchScope : Type 0 where
  global tenant : KillSwitchScope

pub record KillSwitchRedisState : Type 0 where
  pub reason : String
  pub activated_by : String
  pub activated_at : ℕ

pub record KillSwitchStore : Type 0 where
  pub global_state : Option KillSwitchRedisState
  pub tenant_states : Dict KillSwitchRedisState
  pub active_tenants : List String

pub record KillSwitchStatusEntry : Type 0 where
  pub scope : KillSwitchScope
  pub tenant_id : Option String
  pub active : Bool
  pub state : Option KillSwitchRedisState

pub record KillSwitchStatus : Type 0 where
  pub global_status : KillSwitchStatusEntry
  pub tenant_statuses : List KillSwitchStatusEntry

-- A row of `KillSwitchEvent`; `activated` is its action.
pub record KillSwitchEvent : Type 0 where
  pub event_id : String
  pub scope : KillSwitchScope
  pub tenant_id : Option String
  pub activated : Bool
  pub reason : String
  pub actor : String
  pub is_drill : Bool

abbrev pub is_some {ℓ} : {A : Type ℓ} → Option A → Bool
is_some none = false
is_some (some a) = true

unfoldable pub is_global_active : KillSwitchStore → Bool
is_global_active s = is_some s.global_state

unfoldable pub is_tenant_active : KillSwitchStore → String → Bool
is_tenant_active s t = is_some (lookup t s.tenant_states)

abbrev tenant_active : KillSwitchStore → Option String → Bool
tenant_active s none = false
tenant_active s (some t) = is_tenant_active s t

unfoldable pub is_active_for : KillSwitchStore → Option String → Bool
unfolding is_global_active is_tenant_active
is_active_for s tenant_id = if is_global_active s then true else tenant_active s tenant_id

unfoldable pub activate_global : String → String → ℕ → KillSwitchStore → KillSwitchStore
activate_global reason actor now s = record s {
  global_state = some (record { reason = reason; activated_by = actor; activated_at = now });
}

unfoldable pub deactivate_global : KillSwitchStore → KillSwitchStore
deactivate_global s = record s { global_state = none }

unfoldable pub activate_tenant : String → String → String → ℕ → KillSwitchStore → KillSwitchStore
activate_tenant t reason actor now s = record s {
  tenant_states =
      insert t (record { reason = reason; activated_by = actor; activated_at = now })
        s.tenant_states;
  active_tenants = sadd t s.active_tenants;
}

unfoldable pub deactivate_tenant : String → KillSwitchStore → KillSwitchStore
deactivate_tenant t s = record s {
  tenant_states = erase t s.tenant_states;
  active_tenants = srem t s.active_tenants;
}

abbrev global_entry : Option KillSwitchRedisState → KillSwitchStatusEntry
global_entry state = record {
  scope = global;
  tenant_id = none;
  active = is_some state;
  state = state;
}

-- A member whose key is gone is skipped.
abbrev tenant_entry :
    String → Option KillSwitchRedisState → List KillSwitchStatusEntry → List KillSwitchStatusEntry
tenant_entry t none rest = rest
tenant_entry t (some state) rest =
    record { scope = tenant; tenant_id = some t; active = true; state = some state } ∷ rest

unfoldable pub tenant_entries : Dict KillSwitchRedisState → List String → List KillSwitchStatusEntry
tenant_entries states [] = []
tenant_entries states (t ∷ ts) = tenant_entry t (lookup t states) (tenant_entries states ts)

unfoldable pub get_status : KillSwitchStore → KillSwitchStatus
unfolding tenant_entries
get_status s = record {
  global_status = global_entry s.global_state;
  tenant_statuses = tenant_entries s.tenant_states s.active_tenants;
}

pub data ScopeError : Type 0 where
  tenant_id_required tenant_id_not_allowed : ScopeError

-- the truth value of an optional id
abbrev pub is_given : Option String → Bool
is_given none = false
is_given (some t) = not (str_eq t "")

pub record SwitchRequest : Type 0 where
  pub scope : KillSwitchScope
  pub activate : Bool
  pub reason : String
  pub actor : String
  pub tenant_id : Option String
  pub is_drill : Bool

-- The store and the table of events.
pub record Governance : Type 0 where
  pub store : KillSwitchStore
  pub events : List KillSwitchEvent

abbrev check_scope : KillSwitchScope → Option String → Option ScopeError
check_scope tenant t = if is_given t then none else some tenant_id_required
check_scope global t = if is_given t then some tenant_id_not_allowed else none

unfoldable pub flip :
    KillSwitchScope → Bool → Option String → String → String → ℕ → KillSwitchStore → KillSwitchStore
unfolding activate_global deactivate_global activate_tenant deactivate_tenant
flip global true t reason actor now s = activate_global reason actor now s
flip global false t reason actor now s = deactivate_global s
flip tenant true (some t) reason actor now s = activate_tenant t reason actor now s
flip tenant false (some t) reason actor now s = deactivate_tenant t s
flip tenant _ none reason actor now s = s

abbrev event_of : String → SwitchRequest → KillSwitchEvent
event_of event_id q = record {
  event_id = event_id;
  scope = q.scope;
  tenant_id = q.tenant_id;
  activated = q.activate;
  reason = q.reason;
  actor = q.actor;
  is_drill = q.is_drill;
}

-- What `kill_switch` leaves: the store and the events, or the `ValueError` that it raises first.
unfoldable pub kill_switch :
    String → ℕ → SwitchRequest → Governance → Result ScopeError (Governance × KillSwitchEvent)
kill_switch event_id now q g = elim (check_scope q.scope q.tenant_id) [
  | some e ↦ err e
  | none ↦
      let event : KillSwitchEvent = event_of event_id q in
      ok (
        record {
          store = flip q.scope q.activate q.tenant_id q.reason q.actor now g.store;
          events = g.events ++ event ∷ [];
        },
        event,
      )
]
