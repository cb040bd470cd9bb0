-- ===== src/Tokens/Tests.antt =====
-- The tokens of src/shelfwise_backend, with a small codec: three JSON texts are numbered, and a
-- number is written in base64 as so many letters A.
use shelfwise.Prelude.{
  ℕ, zero, suc, String, true, false, ◌≡◌, refl, ap, Option, none, some, [], ◌∷◌, if◌then◌else◌,
  text_key, pos, arith, is_some, eqb,
}
use Prim.Native.String.{◌++◌}
use text.Mathlib.TextLemmas.{nil-append, cons-append}
use shelfwise.Prelude.Text.{len, strip, lower}
use shelfwise.Prelude.Results.{ok, err, value_error, ◌>>=◌}
use shelfwise.Contracts.Json.{Json, Members, object, get}
use shelfwise.Tokens.{
  Codec, is_char, repeated, missing_of, is_ascii, dot, equals_sign, header_claims,
  encode_hs256_token, decode_hs256_claims, split_dots, drop_padding, dumps_of, loads_of, sign,
  compare_digest, required_string,
}
use shelfwise.Tokens.Parts.{IsBase64, lacks, one_front}
use shelfwise.Tokens.Signed.{IsReadBack}
use shelfwise.Tokens.Accounts.{
  activation, password_reset, Stamps, account_claims, issue_account_token, verify_account_token,
  verify-issue,
}
use shelfwise.Tokens.Sessions.{
  TenantContext, manager, tenant_context_from_jwt, remove_prefix, verify_bearer_token, role_of,
}
use shelfwise.Tokens.Sessions.Roundtrip.{session_claims, session-roundtrip}
use shelfwise.Tokens.Separation.{tokens_kept_apart}
use shelfwise.Tokens.Guards.{
  Account, Request, Environment, pass, auth_mode_of, require_role, current_tenant_context,
  request_authorization, verified_tenant_context,
}
use shelfwise.Tokens.Guards.Admission.{IsAdmitted, require_role-IsAdmitted}

abbrev invitation : Members
invitation = account_claims activation " acme " "ann" "n0nce" 160

abbrev ann : TenantContext
ann = record {
  tenant_id = "acme";
  user_id = "ann";
  role = manager;
  session_version = some (pos 2);
  password_change_required = false;
}

abbrev session : Members
session = session_claims ann 500

abbrev number_of : Members → ℕ
number_of claims =
    if is_some (get "alg" claims) then 1 else if is_some (get "purpose" claims) then 2 else 3

abbrev letters : String → ℕ
letters String.[] = 0
letters (String.◌∷◌ c s) = if is_char 65 c then suc (letters s) else letters s

abbrev text_of : ℕ → Option Json
text_of n =
    if eqb n 1
    then some (object header_claims)
    else if eqb n 2
    then some (object invitation)
    else if eqb n 3
    then some (object session)
    else none

abbrev codec : Codec ℕ
codec = record {
  dumps = number_of;
  loads = text_of;
  b64encode = λ n. repeated "A" n ++ repeated "=" (missing_of (len (repeated "A" n)));
  b64decode = λ s. some (letters s);
  digest = λ key message. 4;
  int_of_text = λ s. none;
}

lacks-letters : (k : ℕ) → is_char k "A" ≡ false → (n : ℕ) → lacks k (repeated "A" n) ≡ true
lacks-letters k h zero = refl
lacks-letters k h (suc n) =
    rw (one_front "A" (repeated "A" n)) (ground (arith, h, lacks-letters k h n))

ascii-letters : (n : ℕ) → is_ascii (repeated "A" n) ≡ true
ascii-letters zero = refl
ascii-letters (suc n) = rw (one_front "A" (repeated "A" n)) (ascii-letters n)

letters-padding : (n : ℕ) → letters (repeated "=" n) ≡ 0
letters-padding zero = refl
letters-padding (suc n) = rw (one_front "=" (repeated "=" n)) (letters-padding n)

letters-encoded : (n m : ℕ) → letters (repeated "A" n ++ repeated "=" m) ≡ n
letters-encoded zero m = rw (nil-append (repeated "=" m)) (letters-padding m)
letters-encoded (suc n) m =
    rw (one_front "A" (repeated "A" n), cons-append "A" (repeated "A" n) (repeated "=" m))
      (ap suc (letters-encoded n m))

abbrev base64 : IsBase64 codec
base64 = record {
  body = repeated "A";
  no_dot = lacks-letters dot refl;
  no_equals_sign = lacks-letters equals_sign refl;
  ascii = ascii-letters;
  padded = λ n. refl;
  decodes = λ n. ap some (letters-encoded n (missing_of (len (repeated "A" n))));
}

header-IsReadBack : IsReadBack codec header_claims
unfolding get
header-IsReadBack = record { back = header_claims; read = refl; same = λ key. refl }

invitation-IsReadBack : IsReadBack codec invitation
unfolding get
invitation-IsReadBack = record { back = invitation; read = refl; same = λ key. refl }

session-IsReadBack : IsReadBack codec session
unfolding get
session-IsReadBack = record { back = session; read = refl; same = λ key. refl }

abbrev stamps : Stamps
stamps = record { token_digest = λ t. t; isoformat = λ n. "" }

-- An invitation does not reset a password.
verify-issue_example :
    (issue_account_token codec stamps activation " acme " "ann" "key" 60 "n0nce" 100 >>= λ issued.
    verify_account_token codec issued.token password_reset "key" 130)
    ≡ err value_error
unfolding strip
verify-issue_example =
    verify-issue codec base64 stamps activation password_reset " acme " "ann" "key" "n0nce" 60 100
      130 header-IsReadBack invitation-IsReadBack refl (omega arith) refl refl refl

session-roundtrip_example :
    tenant_context_from_jwt codec (encode_hs256_token codec session "key") "key" 400 ≡ ok ann
unfolding strip
session-roundtrip_example =
    session-roundtrip codec base64 ann "key" 500 400 header-IsReadBack session-IsReadBack refl refl
      refl refl

abbrev env : Environment
env = record {
  app_env = "production";
  auth_mode = " JWT";
  tenant_auth_secret = "key";
  shelfwise_tenant_id = "";
  tenant_id = "";
  api_key = "";
  worker_api_key = "";
}

abbrev accounts : String → String → Option Account
accounts tenant user =
    some (record { active = true; session_version = pos 2; must_change_password = false })

abbrev request : Request
request = record {
  path = "/decisions";
  authorization = none;
  cookie = some (encode_hs256_token codec session "key");
}

jwt_mode : auth_mode_of env ≡ "jwt"
unfolding strip lower
jwt_mode = refl

manager_passes : require_role codec accounts env 400 (manager ∷ []) request none ≡ pass ann
unfolding require_role current_tenant_context request_authorization verified_tenant_context
    verify_bearer_token remove_prefix tenant_context_from_jwt encode_hs256_token decode_hs256_claims
    split_dots drop_padding dumps_of loads_of sign compare_digest required_string role_of strip
    lower get len
manager_passes = refl

require_role-IsAdmitted_example : IsAdmitted codec accounts env 400 (manager ∷ []) request none ann
require_role-IsAdmitted_example =
    require_role-IsAdmitted codec accounts env 400 (manager ∷ []) request none ann jwt_mode
      manager_passes

tokens_kept_apart_example :
    (tenant_context_from_jwt codec (encode_hs256_token codec invitation "key") "key" 130
      ≡ err value_error)
    × (verify_account_token codec (encode_hs256_token codec session "key") activation "key" 130
        ≡ err value_error)
unfolding strip
tokens_kept_apart_example =
    tokens_kept_apart codec base64 "key" 130 160 500 activation activation " acme " "ann" "n0nce"
      ann header-IsReadBack invitation-IsReadBack session-IsReadBack refl refl
