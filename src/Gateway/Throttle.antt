-- ===== src/Gateway/Throttle.antt =====
-- apps/api-gateway/src/core/gateway-throttler.guard.ts: which requests share a rate limit.
use nestjs_saas.Prelude.{
  ℕ, sym, String, Option, ◌≡◌, ◌↔◌, refl, if◌then◌else◌, ◌==◌, or_default, arith, ap,
}
use nestjs_saas.Js.Text.{trim}
use text.Mathlib.TextLemmas.{append_cancel_left, cons-append}
use Prim.Native.Char.{code}
use Prim.Native.String.{◌++◌ as append}

-- The limits that apps/api-gateway/src/api-gateway.module.ts configures.
pub data Limit : Type 0 where
  ip tenant : Limit

-- `req.ip ?? 'unknown-ip'`
abbrev pub get_tracker : Option String → String
get_tracker request_ip = or_default request_ip "unknown-ip"

-- `tenantId?.trim() || 'public'`
unfoldable pub tenant_key : Option String → String
unfolding trim
tenant_key header = let name = trim (or_default header "") in if name == "" then "public" else name

abbrev pub generate_key : Option String → String → Limit → String
generate_key header tracker tenant = append "tenant:" (tenant_key header)
generate_key header tracker ip = append "ip:" tracker

-- What a limit counts by.
abbrev pub counted_by : Option String → String → Limit → String
counted_by header tracker tenant = tenant_key header
counted_by header tracker ip = tracker

first_code : String → ℕ
first_code String.[] = 0
first_code (String.◌∷◌ c s) = code c

apart {ℓ} : {A : Type ℓ} (t key : String) → append "ip:" t ≡ append "tenant:" key → A
unfolding first_code
apart t key e =
    let ip_code : first_code (append "ip:" t) ≡ b'i' = ap first_code (cons-append "i" "p:" t) in
    let tenant_code : first_code (append "tenant:" key) ≡ b't' =
      ap first_code (cons-append "t" "enant:" key) in
    absurd (omega (arith, ip_code, tenant_code, ap first_code e))

-- Two requests count towards the same limit exactly when it is the limit of addresses and their
-- addresses agree, or it is the limit of tenants and their tenant headers agree, where white space
-- around is ignored and a missing or blank header stands for "public".
pub generate_key-eq :
    (header header' : Option String) (tracker tracker' : String) (limit limit' : Limit)
    → (generate_key header tracker limit ≡ generate_key header' tracker' limit')
      ↔ ((limit ≡ limit') × (counted_by header tracker limit ≡ counted_by header' tracker' limit'))
generate_key-eq header header' t t' ip ip =
    ((λ e. (refl, append_cancel_left "ip:" t t' e)), (λ same. ap (append "ip:") same.1))
generate_key-eq header header' t t' ip tenant = ((λ e. apart t _ e), (λ same. cc))
generate_key-eq header header' t t' tenant ip = ((λ e. apart t' _ (sym e)), (λ same. cc))
generate_key-eq header header' t t' tenant tenant =
    ((λ e. (refl, append_cancel_left "tenant:" _ _ e)), (λ same. ap (append "tenant:") same.1))
