-- ===== src/Proxy.antt =====
-- trustflow/proxy: the handlers of the two proxies, and what they are made of.
pub mod Ra
pub mod Jwe
pub mod Client
pub mod Oss
pub mod Capsule
pub mod Log
pub mod Main
pub mod Sample
mod Tests
use trustflow.Base.{ℕ, [], Str, codes}
use trustflow.Error.{Result, ok, throw, undefined, Exception}

-- `kTeePlatSim`
abbrev pub tee_plat_sim : Str
tee_plat_sim = codes "sim"

-- `secretflowapis::v2::Status`
pub record RpcStatus : Type 0 where
  pub code : ℕ
  pub message : Str

-- `secretflowapis::v2::Code::OK`
abbrev pub code_ok : ℕ
code_ok = 0

abbrev pub success_status : RpcStatus
success_status = record { code = code_ok; message = codes "success" }

-- What a handler leaves: its response, or the controller `SetFailed` and the response as it was.
pub data Reply (A : Type 0) : Type 0 where
  success : A → Reply A
  failed : Exception → Reply A

-- `try { ... } catch (const std::exception& e) { cntl->SetFailed(e.what()); }`
unfoldable pub caught : {A : Type 0} → Result A → Result (Reply A)
caught (ok a) = ok (success a)
caught (throw x) = ok (failed x)
caught undefined = undefined
