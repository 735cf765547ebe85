-- ===== src/Webhook.antt =====
-- internal/webhook: what the admission handlers share. The decoding of the raw objects is the
-- library's; a request carries its outcome, `none` for an error.
pub mod Claims
pub mod Gangs
pub mod Jobs
pub mod Resizer
mod Examples
use vgpu_scheduler.Prelude.{
  ◌≡◌, String, Option, none, some, Result, ok, err, Bool, true, false, str_eq,
}

pub data Operation : Type 0 where
  create update : Operation
  other : String → Operation

pub record Request (A : Type 0) : Type 0 where
  pub operation : Operation
  pub object : Option A
  pub old_object : Option A

-- An admission response: the error code 400, a refusal with its reason, or an admission with its note.
pub data Response (E : Type 0) : Type 0 where
  bad_request : Response E
  denied : E → Response E
  allowed : String → Response E

-- `if err := …; err != nil { return admission.Denied(err.Error()) }`, then the rest.
abbrev pub deny_or : {A E : Type 0} → Result E A → Response E → Response E
deny_or (err e) rest = denied e
deny_or (ok _) rest = rest

-- The service tiers that the validators accept; an empty one is left to the default.
unfoldable pub is_known_tier : String → Bool
is_known_tier t = elim (str_eq t "") [
  | true ↦ true
  | false ↦ elim (str_eq t "Guaranteed") [ true ↦ true | false ↦ str_eq t "BestEffort" ]
]
