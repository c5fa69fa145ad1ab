-- ===== src/Bridge/Search.antt =====
-- The breadth-first searches of bridge/validate.go: a set of seen chunks and a queue.
pub mod Pushes
pub mod Reach
pub mod Paths
use satis.Base.{
  ℕ, zero, suc, Text, text_eq, Bool, true, false, if◌then◌else◌, List, [], ◌∷◌, ◌++◌, ◌||◌,
}

-- Membership in a set of identifiers.
unfoldable pub member : Text → List Text → Bool
member x [] = false
member x (y ∷ ys) = text_eq x y || member x ys

pub record Search : Type 0 where
  pub seen : List Text
  pub queue : List Text

abbrev pub push : Text → Search → Search
push v st =
    if member v st.seen then st else record { seen = v ∷ st.seen; queue = st.queue ++ v ∷ [] }

-- The inner loop: what is not yet seen is marked and queued.
unfoldable pub push_unseen : List Text → Search → Search
unfolding member
push_unseen [] st = st
push_unseen (v ∷ vs) st = push_unseen vs (push v st)

-- The outer loop of findUnreachable, over the part of the queue that is not yet visited.
unfoldable pub visit_all : ℕ → (Text → List Text) → Search → Search
unfolding push_unseen
visit_all zero next st = st
visit_all (suc fuel) next st = elim st.queue [
  | [] ↦ st
  | u ∷ rest ↦ visit_all fuel next (push_unseen (next u) (record st { queue = rest }))
]

-- The outer loop of edgeCreatesBackReference, which stops at the chunk that it looks for.
unfoldable pub finds : ℕ → (Text → List Text) → Text → Search → Bool
unfolding push_unseen
finds zero next goal st = false
finds (suc fuel) next goal st = elim st.queue [
  | [] ↦ false
  | u ∷ rest ↦
      let more = finds fuel next goal (push_unseen (next u) (record st { queue = rest })) in
      if text_eq u goal then true else more
]
