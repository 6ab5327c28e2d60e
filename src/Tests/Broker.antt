-- ===== src/Tests/Broker.antt =====
-- The static broker of grants.py at a concrete request.
use hermes_plugin_dynamic_wo.Prelude.{◌≡◌, refl, [], ◌∷◌}
use hermes_plugin_dynamic_wo.Python.Int.{pos}
use hermes_plugin_dynamic_wo.Python.Float.{fin}
use hermes_plugin_dynamic_wo.Python.Value.{int, str}
use hermes_plugin_dynamic_wo.Grants.Records.{SideEffect}
use hermes_plugin_dynamic_wo.Grants.Broker.{StaticPolicy, call_broker}
use hermes_plugin_dynamic_wo.Grants.Broker.Issued.{Answered, call_broker-Answered}
use hermes_plugin_dynamic_wo.Tests.Grants.{request}
use hermes_plugin_dynamic_wo.Tests.Samples.{platform}

abbrev policy : StaticPolicy
policy = record {
  allowed_scope = "session.status" ∷ "session.launch" ∷ [];
  max_ttl_seconds = fin (pos 30);
  allowed_side_effect_classes = SideEffect.session_launch ∷ [];
  backend = "inproc";
}

-- The broker grants, and counts.
broker_counts :
    (call_broker platform (λ x. "iso") policy (int (pos 1)) (λ n. str "grant-1") request 4).1 ≡ 5
unfolding call_broker
broker_counts = refl

call_broker-Answered_example :
    Answered platform
      (λ x. "iso")
      policy
      (int (pos 1))
      (λ n. str "grant-1")
      request
      (call_broker platform (λ x. "iso") policy (int (pos 1)) (λ n. str "grant-1") request 4).0
call_broker-Answered_example =
    call_broker-Answered platform (λ x. "iso") policy (int (pos 1)) (λ n. str "grant-1") request 4
