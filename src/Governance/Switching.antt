-- ===== src/Governance/Switching.antt =====
-- What a flip of the kill switch changes, and what the status shows.
use reg_engine_ai.Base.{
  Dict, ℕ, String, ◌≡◌, refl, sym, subst, Bool, true, false, ◌&&◌, ◌||◌, Option, none, some, List,
  [], ◌∷◌, ◌++◌, arith, ok, lookup, is_member, lookup-insert, lookup-erase, is_member-sadd,
  is_member-srem, str_eq, eq_iff, if◌then◌else◌,
}
use reg_engine_ai.Governance.KillSwitch.{
  KillSwitchScope, global, tenant, KillSwitchRedisState, KillSwitchStore, KillSwitchStatusEntry,
  is_some, is_active_for, is_tenant_active, is_global_active, tenant_entries, get_status,
  SwitchRequest, Governance, KillSwitchEvent, flip, kill_switch,
}

-- Whether the switch that decides for tenant `t` is on, after a request, from what it was before.
abbrev pub expected : SwitchRequest → KillSwitchStore → String → Bool
expected q s t = elim q.scope [
  | global ↦ q.activate || is_tenant_active s t
  | tenant ↦ is_global_active s || elim q.tenant_id [
    | none ↦ is_tenant_active s t
    | some u ↦ if str_eq u t then q.activate else is_tenant_active s t
  ]
]

flip_active :
    (scope : KillSwitchScope) (activate : Bool) (who : Option String) (reason actor : String)
    (now : ℕ) (drill : Bool) (s : KillSwitchStore) (t : String)
    → is_active_for (flip scope activate who reason actor now s) (some t)
      ≡ expected
          (record {
            scope = scope;
            activate = activate;
            reason = reason;
            actor = actor;
            tenant_id = who;
            is_drill = drill;
          })
          s
          t
unfolding is_active_for flip
flip_active global true who reason actor now drill s t = refl
flip_active global false who reason actor now drill s t = refl
flip_active tenant true none reason actor now drill s t = ground arith
flip_active tenant false none reason actor now drill s t = ground arith
flip_active tenant true (some u) reason actor now drill s t = ground (
  arith,
  lookup-insert u t (record { reason = reason; activated_by = actor; activated_at = now })
      s.tenant_states,
)
flip_active tenant false (some u) reason actor now drill s t =
    ground (arith, lookup-erase u t s.tenant_states)

kill_switch_store :
    (event_id : String) (now : ℕ) (q : SwitchRequest) (g : Governance) {g' : Governance}
    {e : KillSwitchEvent}
    → kill_switch event_id now q g ≡ ok (g', e)
    → (g'.store ≡ flip q.scope q.activate q.tenant_id q.reason q.actor now g.store)
      × (g'.events ≡ g.events ++ e ∷ [])
      × (e.activated ≡ q.activate)
      × (e.scope ≡ q.scope)
      × (e.tenant_id ≡ q.tenant_id)
      × (e.reason ≡ q.reason)
      × (e.actor ≡ q.actor)
      × (e.is_drill ≡ q.is_drill)
      × (e.event_id ≡ event_id)
unfolding kill_switch
kill_switch_store event_id now q g h = ground arith

-- After an accepted request the check of every tenant gives what the request and the state before
-- say, and exactly one event is added to the table: with the given id, and the request's action, scope,
-- tenant, reason, actor and drill mark.
pub kill_switch_effect :
    (event_id : String) (now : ℕ) (q : SwitchRequest) (g : Governance) {g' : Governance}
    {e : KillSwitchEvent}
    → kill_switch event_id now q g ≡ ok (g', e)
    → ((t : String) → is_active_for g'.store (some t) ≡ expected q g.store t)
      × (g'.events ≡ g.events ++ e ∷ [])
      × (e.activated ≡ q.activate)
      × (e.scope ≡ q.scope)
      × (e.tenant_id ≡ q.tenant_id)
      × (e.reason ≡ q.reason)
      × (e.actor ≡ q.actor)
      × (e.is_drill ≡ q.is_drill)
      × (e.event_id ≡ event_id)
kill_switch_effect event_id now q g h =
    let after = kill_switch_store event_id now q g h in
    (
      λ t.
          rw after.0
            (flip_active q.scope q.activate q.tenant_id q.reason q.actor now q.is_drill g.store t),
      after.1,
      after.2,
      after.3,
      after.4,
      after.5,
      after.6,
      after.7,
      after.8,
    )

-- The index of the tenants lists exactly the tenants whose key is set.
abbrev pub IsIndexed : KillSwitchStore → Type 0
IsIndexed s = (t : String) → is_member t s.active_tenants ≡ is_tenant_active s t

flip-IsIndexed :
    (scope : KillSwitchScope) (activate : Bool) (who : Option String) (reason actor : String)
    (now : ℕ) (s : KillSwitchStore)
    → IsIndexed s
    → IsIndexed (flip scope activate who reason actor now s)
unfolding flip is_tenant_active
flip-IsIndexed global true who reason actor now s h t = h t
flip-IsIndexed global false who reason actor now s h t = h t
flip-IsIndexed tenant true none reason actor now s h t = h t
flip-IsIndexed tenant false none reason actor now s h t = h t
flip-IsIndexed tenant true (some u) reason actor now s h t = ground (
  arith,
  h t,
  lookup-insert u t (record { reason = reason; activated_by = actor; activated_at = now })
      s.tenant_states,
  is_member-sadd u t s.active_tenants,
)
flip-IsIndexed tenant false (some u) reason actor now s h t =
    ground (arith, h t, lookup-erase u t s.tenant_states, is_member-srem u t s.active_tenants)

-- A request that is accepted keeps the index of the tenants in step with their keys.
pub kill_switch-IsIndexed :
    (event_id : String) (now : ℕ) (q : SwitchRequest) (g : Governance) {g' : Governance}
    {e : KillSwitchEvent}
    → IsIndexed g.store
    → kill_switch event_id now q g ≡ ok (g', e)
    → IsIndexed g'.store
kill_switch-IsIndexed event_id now q g h eq =
    subst IsIndexed (sym (kill_switch_store event_id now q g eq).0)
      (flip-IsIndexed q.scope q.activate q.tenant_id q.reason q.actor now g.store h)

-- A status that lists a tenant.
abbrev pub listed : String → List KillSwitchStatusEntry → Bool
listed t [] = false
listed t (x ∷ xs) = elim x.tenant_id [ none ↦ false | some u ↦ str_eq u t ] || listed t xs

listed-tenant_entries :
    (t : String) (states : Dict KillSwitchRedisState) (ts : List String)
    → listed t (tenant_entries states ts) ≡ (is_member t ts && is_some (lookup t states))
unfolding tenant_entries is_member
listed-tenant_entries t states [] = refl
listed-tenant_entries t states (u ∷ ts) =
    ground (arith, listed-tenant_entries t states ts, eq_iff u t)

-- While the index is in step with the keys, the status reports the global switch as the check sees
-- it, and lists exactly the tenants whose own switch is on.
pub get_status_exact :
    (s : KillSwitchStore) (t : String)
    → IsIndexed s
    → ((get_status s).global_status.active ≡ is_global_active s)
      × (listed t (get_status s).tenant_statuses ≡ is_tenant_active s t)
unfolding get_status is_global_active is_tenant_active
get_status_exact s t h =
    (refl, ground (arith, h t, listed-tenant_entries t s.tenant_states s.active_tenants))
