-- ===== src/Logging.antt =====
-- The log handler (internal/observability/slog.go), over a handler of the package slog that is an
-- argument.
pub mod Laws
pub mod Tests
use booking_orchestration_se.Base.{
  String, Option, none, some, List, [], ◌∷◌, ◌++◌, is_empty, if◌then◌else◌,
}
use booking_orchestration_se.Server.Context.{Context, request_id}

-- `slog.Attr`: a key and the text of its value.
abbrev pub Attr : Type 0
Attr = String × String

-- The operations of a `slog.Handler` that the code calls. `R` is a record, `E` what handling it
-- comes to.
pub record BaseHandler (H R E : Type 0) : Type 0 where
  pub with_attrs : H → List Attr → H
  pub with_group : H → String → H
  pub handle : H → R → E

pub record Step : Type 0 where
  pub group : String
  pub attrs : List Attr

pub record RequestHandler (H : Type 0) : Type 0 where
  pub base : H
  pub steps : List Step

abbrev pub no_attrs : List Attr → Option (List Attr)
no_attrs [] = none
no_attrs (a ∷ attrs) = some (a ∷ attrs)

module _ {H : Type 0} where
  unfoldable pub new_handler : H → RequestHandler H
  new_handler base = record { base = base; steps = [] }

  -- `with`: the steps are copied, so handlers that were derived from one handler do not share them.
  unfoldable pub with_step : RequestHandler H → Step → RequestHandler H
  with_step h s = record h { steps = h.steps ++ (s ∷ []) }

  unfoldable pub with_attrs : RequestHandler H → List Attr → RequestHandler H
  with_attrs h attrs = elim (no_attrs attrs) [
    | none ↦ h
    | some some_attrs ↦ with_step h (record { group = ""; attrs = some_attrs })
  ]

  unfoldable pub with_group : RequestHandler H → String → RequestHandler H
  with_group h name = if is_empty name then h else with_step h (record { group = name; attrs = [] })

module _ {H R E : Type 0} (slog : BaseHandler H R E) where
  -- The request id, before any group is opened.
  unfoldable pub stamped : Context → H → H
  stamped ctx base =
      if is_empty (request_id ctx)
      then base
      else slog.with_attrs base (("request_id", request_id ctx) ∷ [])

  -- The loop of `Handle`.
  unfoldable pub replayed : List Step → H → H
  replayed [] next = next
  replayed (s ∷ steps) next =
      replayed steps
        (if is_empty s.group then slog.with_attrs next s.attrs else slog.with_group next s.group)

  -- `Handle`.
  unfoldable pub handle : Context → RequestHandler H → R → E
  handle ctx h r = slog.handle (replayed h.steps (stamped ctx h.base)) r
