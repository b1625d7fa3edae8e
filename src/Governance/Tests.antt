-- ===== src/Governance/Tests.antt =====
-- The kill switch at concrete requests.
use reg_engine_ai.Base.{
  ◌≡◌, refl, true, false, none, some, [], ◌∷◌, ok, err, lookup, insert, is_member, sadd,
}
use reg_engine_ai.Governance.KillSwitch.{
  tenant, SwitchRequest, Governance, KillSwitchEvent, tenant_id_required, is_active_for,
  is_tenant_active, is_global_active, flip, kill_switch,
}
use reg_engine_ai.Governance.Switching.{kill_switch_effect, IsIndexed}

abbrev calm : Governance
calm = record {
  store = record { global_state = none; tenant_states = []; active_tenants = [] };
  events = [];
}

abbrev freeze : SwitchRequest
freeze = record {
  scope = tenant;
  activate = true;
  reason = "drift in the margin agent";
  actor = "officer-1";
  tenant_id = some "broker-1";
  is_drill = false;
}

abbrev frozen_event : KillSwitchEvent
frozen_event = record {
  event_id = "e1";
  scope = tenant;
  tenant_id = some "broker-1";
  activated = true;
  reason = "drift in the margin agent";
  actor = "officer-1";
  is_drill = false;
}

abbrev frozen : Governance
frozen = record {
  store = record {
    global_state = none;
    tenant_states =
        (
          "broker-1",
          record {
            reason = "drift in the margin agent";
            activated_by = "officer-1";
            activated_at = 5;
          },
        )
        ∷ [];
    active_tenants = "broker-1" ∷ [];
  };
  events = frozen_event ∷ [];
}

kill_switch-freeze : kill_switch "e1" 5 freeze calm ≡ ok (frozen, frozen_event)
unfolding kill_switch flip insert sadd
kill_switch-freeze = refl

kill_switch-no_tenant :
    kill_switch "e1" 5 (record freeze { tenant_id = some "" }) calm ≡ err tenant_id_required
unfolding kill_switch
kill_switch-no_tenant = refl

kill_switch_effect_example : is_active_for frozen.store (some "broker-1") ≡ true
unfolding is_global_active
kill_switch_effect_example = (kill_switch_effect "e1" 5 freeze calm kill_switch-freeze).0 "broker-1"

calm-IsIndexed : IsIndexed calm.store
unfolding is_member is_tenant_active lookup
calm-IsIndexed t = refl
