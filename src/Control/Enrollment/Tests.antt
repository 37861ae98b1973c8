-- ===== src/Control/Enrollment/Tests.antt =====
-- Runs of the enrollment, and instances of its theorems.
use web_inspector.Prelude.{
  List, String, [], arith, eq_iff, false, none, refl, some, throw, true, value, ◌↔◌, ◌∷◌, ◌≡◌,
  string_eq,
}
use web_inspector.Prelude.Dict.{lookup}
use web_inspector.Prelude.Text.{trim}
use web_inspector.Contracts.Nodes.{azure_direct}
use web_inspector.Control.Enrollment.Admission.{Admits, enroll-Admits}
use web_inspector.Control.Enrollment.Tokens.{one_time_token_once, IsThrow}
use web_inspector.Control.Enrollment.Credentials.{verify_enrolled}
use web_inspector.Control.Enrollment.Restart.{empty, restart, restart_keeps}
use web_inspector.Control.Enrollment.{
  Call, Enrollment, Platform, Request, calls, enroll, enroll_call, issue_call, node_id_of,
  sweep_call, token_expired, verify_credential,
}

-- A platform whose digest is the text itself.
abbrev plain : Platform
plain = record { sha256_hex = λ s. s; fingerprint_of = λ s. some s; hex_bytes = λ s. s }

abbrev vm1 : Request
vm1 = record {
  token = some "enr_1";
  node_name = some " vm1 ";
  node_type = azure_direct;
  client_cert = none;
}

abbrev issued : Enrollment
issued = record {
  tokens =
      ("enr_1", record { node_type = none; expires_at = 900; one_time_use = true; used = false })
      ∷ [];
  credentials = [];
  stored_tokens = [];
  stored_credentials = [];
}

enrolls_vm1 : (enroll plain issued 100 vm1 "cred").1 ≡ value "azure_direct:vm1"
unfolding enroll trim node_id_of lookup
enrolls_vm1 = refl

expired_token : (enroll plain issued 901 vm1 "cred").1 ≡ throw token_expired
unfolding enroll trim node_id_of lookup
expired_token = refl

enroll-Admits_example :
    Admits plain issued 100 vm1 "cred" "azure_direct:vm1" (enroll plain issued 100 vm1 "cred").0
enroll-Admits_example = enroll-Admits plain issued 100 vm1 "cred" "azure_direct:vm1" enrolls_vm1

one_time_token_once_example :
    IsThrow
      (enroll plain
        (calls plain
          (enroll plain issued 100 vm1 "cred").0
          (issue_call 150 "enr_2" none 500 true ∷ sweep_call 160 ∷ []))
        200
        vm1
        "other").1
unfolding lookup
one_time_token_once_example =
    one_time_token_once plain issued 100 200 vm1 vm1 "cred" "other" "azure_direct:vm1"
      (record { node_type = none; expires_at = 900; one_time_use = true; used = false })
      (issue_call 150 "enr_2" none 500 true ∷ sweep_call 160 ∷ []) refl refl enrolls_vm1 refl
      ((λ e. ground (arith, eq_iff {A = String} "enr_2" "enr_1", e)), (tt, tt))

verify_enrolled_example :
    (verify_credential plain (enroll plain issued 100 vm1 "cred").0 "azure_direct:vm1" "guess"
      ≡ true)
    ↔ (◌≡◌ {A = String} "guess" "cred")
verify_enrolled_example =
    verify_enrolled plain issued 100 vm1 "cred" "azure_direct:vm1" "guess" (λ a b e. e) refl
      enrolls_vm1

abbrev one_enrollment : List Call
one_enrollment = issue_call 100 "enr_1" none 500 true ∷ enroll_call 200 vm1 "cred" ∷ []

restart_keeps_example :
    let s = calls plain empty one_enrollment in
    (lookup "enr_1" (restart s).tokens ≡ lookup "enr_1" s.tokens)
    × (verify_credential plain (restart s) "azure_direct:vm1" "cred"
        ≡ verify_credential plain s "azure_direct:vm1" "cred")
restart_keeps_example = restart_keeps plain one_enrollment "enr_1" "azure_direct:vm1" "cred"
