-- ===== src/Logging/Laws.antt =====
-- Replaying the steps late comes to the same as applying them at once, after the request id.
use booking_orchestration_se.Base.{
  String, ◌≡◌, refl, List, [], ◌∷◌, ◌++◌, is_empty, Bool-cases, inl, inr, ap, ◌∙◌, sym, arith,
  eq_iff,
}
use booking_orchestration_se.Server.Context.{Context}
use booking_orchestration_se.Logging.{
  Attr, BaseHandler, Step, RequestHandler, new_handler, with_step, with_attrs, with_group, stamped,
  replayed, handle,
}

-- What a call site does to a logger: `With` and `WithGroup`.
pub data Derivation : Type 0 where
  attrs : List Attr → Derivation
  group : String → Derivation

-- The handler of a logger that was derived step by step.
unfoldable pub derived : {H : Type 0} → List Derivation → RequestHandler H → RequestHandler H
derived [] h = h
derived (attrs added ∷ ds) h = derived ds (with_attrs h added)
derived (group name ∷ ds) h = derived ds (with_group h name)

module _ {H R E : Type 0} (slog : BaseHandler H R E) where
  -- The same on the handler underneath.
  unfoldable pub applied : List Derivation → H → H
  applied [] next = next
  applied (attrs added ∷ ds) next = applied ds (slog.with_attrs next added)
  applied (group name ∷ ds) next = applied ds (slog.with_group next name)

  -- What package slog documents of every handler: no attributes and an unnamed group change nothing.
  pub record IsHandler : Type 0 where
    pub no_attrs_lem : (h : H) → slog.with_attrs h [] ≡ h
    pub no_group_lem : (h : H) → slog.with_group h "" ≡ h

  replayed_snoc :
      (steps : List Step) (s : Step) (next : H)
      → replayed slog (steps ++ (s ∷ [])) next ≡ replayed slog (s ∷ []) (replayed slog steps next)
  unfolding replayed
  replayed_snoc [] s next = refl
  replayed_snoc (t ∷ steps) s next = replayed_snoc steps s _

  module _ (h_laws : IsHandler) where
    with_attrs-replayed :
        (h : RequestHandler H) (added : List Attr) (next : H)
        → replayed slog (with_attrs h added).steps next
          ≡ slog.with_attrs (replayed slog h.steps next) added
    unfolding with_attrs with_step
    with_attrs-replayed h [] next = sym (h_laws.no_attrs_lem _)
    with_attrs-replayed h (a ∷ added) next = replayed_snoc h.steps _ next ∙ unfold replayed in refl

    with_group-replayed :
        (h : RequestHandler H) (name : String) (next : H)
        → replayed slog (with_group h name).steps next
          ≡ slog.with_group (replayed slog h.steps next) name
    unfolding with_group with_step
    with_group-replayed h name next = elim (Bool-cases (is_empty name)) [
      | inl empty ↦
          let unnamed : name ≡ "" = ground (arith, eq_iff name "", empty) in
          rw (empty, unnamed) (sym (h_laws.no_group_lem (replayed slog h.steps next)))
      | inr named ↦ rw named (replayed_snoc h.steps _ next ∙ unfold replayed in rw named refl)
    ]

    derived-applied :
        (ds : List Derivation) (h : RequestHandler H) (next : H)
        → replayed slog (derived ds h).steps next ≡ applied ds (replayed slog h.steps next)
    unfolding derived applied
    derived-applied [] h next = refl
    derived-applied (attrs added ∷ ds) h next =
        derived-applied ds (with_attrs h added) next
        ∙ ap (applied ds) (with_attrs-replayed h added next)
    derived-applied (group name ∷ ds) h next =
        derived-applied ds (with_group h name) next
        ∙ ap (applied ds) (with_group-replayed h name next)

  -- A derived handler keeps what it was built over.
  derived-base : (ds : List Derivation) (h : RequestHandler H) → (derived ds h).base ≡ h.base
  unfolding derived with_attrs with_group with_step
  derived-base [] h = refl
  derived-base (attrs added ∷ ds) h = derived-base ds (with_attrs h added) ∙ ground arith
  derived-base (group name ∷ ds) h = derived-base ds (with_group h name) ∙ ground arith

  -- Over a handler of package slog that changes nothing for no attributes and for an unnamed group,
  -- a record that a derived logger handles comes to what it comes to on the handler underneath with
  -- the request id added first, where the context has one, and the same derivations applied to it
  -- at once: no group that a call site opens holds the id.
  pub handle-applied :
      IsHandler
      → (ctx : Context) (ds : List Derivation) (base : H) (r : R)
      → handle slog ctx (derived ds (new_handler base)) r
        ≡ slog.handle (applied ds (stamped slog ctx base)) r
  unfolding handle new_handler replayed
  handle-applied laws ctx ds base r =
      let h = derived ds (new_handler base) in
      ap (λ b. slog.handle (replayed slog h.steps (stamped slog ctx b)) r)
        (derived-base ds (new_handler base))
      ∙ ap (λ next. slog.handle next r)
          (derived-applied laws ds (new_handler base) (stamped slog ctx base))
