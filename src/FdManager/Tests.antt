-- ===== src/FdManager/Tests.antt =====
-- The theorems on include/io/fd_manager.h at a new manager and at one with room for four.
use net_base.Base.{
  ℕ, ◌≡◌, ◌≢◌, ◌<◌, refl, inr, true, [], ◌∷◌, none, some, get_elem?, pos, negsuc, arith,
}
use net_base.FdManager.{FdContext, Contexts, new_context, set_context, get_context, del_context}
use net_base.FdManager.Contexts.{
  get_context-set_context, set_context_outside, get_context-del_context,
}

abbrev context : FdContext
context = new_context true

four : set_context 3 context [] ≡ some (none ∷ none ∷ none ∷ some context ∷ [])
unfolding set_context
four = refl

negative : get_context (negsuc 0) [] ≡ none
unfolding get_context
negative = refl

get_context-set_context_example :
    (after : Contexts) × (set_context 3 context [] ≡ some after)
    × (get_context (pos 3) after ≡ some (some context))
    × ((i : ℕ) → i ≢ 3 → i < 0 → get_elem? after i ≡ none)
get_context-set_context_example = get_context-set_context 3 context [] (inr (omega arith))

set_context_outside_run : set_context 1 context [] ≡ none
set_context_outside_run = set_context_outside 1 context [] (omega arith) (omega arith)

get_context-del_context_run :
    (after : Contexts) × (del_context (pos 1) (none ∷ some context ∷ []) ≡ some after)
    × (get_context (pos 1) after ≡ some none)
    × ((i : ℕ) → i ≢ 1 → get_elem? after i ≡ get_elem? (none ∷ some context ∷ []) i)
get_context-del_context_run = get_context-del_context 1 (none ∷ some context ∷ [])
