-- ===== src/Client/Http.antt =====
-- Requests and replies. The server and the network are one function of all that was exchanged
-- before, which stands for any behaviour of theirs.
use rostam_bench.Base.{ℕ, Option, List, ◌==◌, ◌||◌, Bool}
use rostam_bench.Python.Errors.{Text, Bytes}
use rostam_bench.Python.Json.{Json}

pub data Method : Type 0 where
  post delete : Method

-- `json=…`; `data=…` with the octet-stream header; or none.
pub data Body : Type 0 where
  json : Json → Body
  octets : Bytes → Body
  empty : Body

pub record Request : Type 0 where
  pub method : Method
  pub url : Text
  pub authorization : Option Text
  pub body : Body
  pub timeout : ℕ

-- `json` is what `r.json()` returns, `none` where it raises.
pub record Response : Type 0 where
  pub status : ℕ
  pub text : Text
  pub json : Option Json

-- `failed`: the call of `requests` raised, by a refused connection or a timeout.
pub data Reply : Type 0 where
  answered : Response → Reply
  failed : Reply

abbrev pub Exchange : Type 0
Exchange = Request × Reply

abbrev pub Log : Type 0
Log = List Exchange

abbrev pub Server : Type 0
Server = Log → Request → Reply

-- `r.status_code in _BINARY_UNSUPPORTED`
abbrev pub unsupported : ℕ → Bool
unsupported status = status == 400 || (status == 404 || status == 415)
