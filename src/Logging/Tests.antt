-- ===== src/Logging/Tests.antt =====
-- A handler that writes each attribute under the groups that were open when it was added.
use booking_orchestration_se.Base.{
  String, ◌≡◌, refl, some, none, List, [], ◌∷◌, ◌++◌, if◌then◌else◌, is_empty, ap,
}
use booking_orchestration_se.Server.Context.{Context, request_id}
use booking_orchestration_se.Logging.{
  Attr, BaseHandler, new_handler, with_step, with_attrs, with_group, stamped, replayed, handle,
}
use booking_orchestration_se.Logging.Laws.{
  Derivation, attrs, group, derived, applied, IsHandler, handle-applied,
}

-- The open groups, and the attributes with the groups they stand in.
abbrev Tree : Type 0
Tree = List String × List (List String × Attr)

abbrev placed : List String → List Attr → List (List String × Attr)
placed path [] = []
placed path (a ∷ as_given) = (path, a) ∷ placed path as_given

abbrev tree : BaseHandler Tree String (List (List String × Attr) × String)
tree = record {
  with_attrs = λ (t : Tree) given. (t.0, t.1 ++ placed t.0 given);
  with_group = λ (t : Tree) name. if is_empty name then t else (t.0 ++ (name ∷ []), t.1);
  handle = λ (t : Tree) message. (t.1, message);
}

append_nil : {A : Type 0} (xs : List A) → xs ++ [] ≡ xs
append_nil [] = refl
append_nil (x ∷ xs) = ap (λ ys. x ∷ ys) (append_nil xs)

tree-IsHandler : IsHandler tree
tree-IsHandler = record { no_attrs_lem = λ h. rw (append_nil h.1) refl; no_group_lem = λ h. refl }

abbrev context : Context
context = record { request_id_value = some "REQ-123"; distributor_value = none }

abbrev derivations : List Derivation
derivations = group "http" ∷ attrs (("method", "POST") ∷ []) ∷ []

-- The id stands at the top, the method in its group.
emitted :
    handle tree context (derived derivations (new_handler ([], []))) "hello"
    ≡ (([], ("request_id", "REQ-123")) ∷ ("http" ∷ [], ("method", "POST")) ∷ [], "hello")
unfolding handle derived new_handler with_step with_attrs with_group stamped replayed request_id
emitted = refl

handle-applied_example :
    handle tree context (derived derivations (new_handler ([], []))) "hello"
    ≡ tree.handle (applied tree derivations (stamped tree context ([], []))) "hello"
handle-applied_example = handle-applied tree tree-IsHandler context derivations ([], []) "hello"
