-- ===== src/Bridge/Corridor/Links.antt =====
-- The edges that a corridor runs along, and the paths that they make, as relations.
use satis.Base.{
  Text, bytes, text_eq, text_eq_iff, to_lower, true, Bool-cases, inl, inr, List, [], ◌∷◌, ◌≡◌, ◌≢◌,
  ◌↔◌, sym, subst, ◌&&◌, arith,
}
use satis.Vfs.Names.{trim_space}
use satis.Bridge.Search.{member}
use satis.Bridge.Search.Reach.{IsReachable, start, step}
use satis.Bridge.Search.Paths.{member_self}
use satis.Bridge.Graph.{PlanEdge}
use satis.Bridge.Corridor.{is_corridor_edge, forward}

-- An edge with two ends, of a kind that is neither a handoff nor a loop back in any case.
pub record IsForward (edge : PlanEdge) : Type 0 where
  pub no_handoff : to_lower (trim_space edge.edge_kind) ≢ bytes "handoff"
  pub no_loop_back : to_lower (trim_space edge.edge_kind) ≢ bytes "loop_back"
  pub from : trim_space edge.from_chunk_id ≢ []
  pub to : trim_space edge.to_chunk_id ≢ []

-- One of the edges goes from the one chunk to the other.
pub data IsLink : List PlanEdge → Text → Text → Type 0 where
  first :
      {edge : PlanEdge}
      → {edges : List PlanEdge} → IsForward edge
      → IsLink (edge ∷ edges) (trim_space edge.from_chunk_id) (trim_space edge.to_chunk_id)
  later :
      {edge : PlanEdge}
      → {edges : List PlanEdge} → {u : Text} → {v : Text} → IsLink edges u v
      → IsLink (edge ∷ edges) u v

-- A path of such edges, which may be empty.
pub data IsForwardPath (edges : List PlanEdge) (u : Text) : Text → Type 0 where
  stay : IsForwardPath edges u u
  along :
      {v : Text} → {w : Text} → IsForwardPath edges u v → IsLink edges v w → IsForwardPath edges u w

corridor_edge-IsForward : (edge : PlanEdge) → is_corridor_edge edge ≡ true → IsForward edge
unfolding is_corridor_edge text_eq to_lower
corridor_edge-IsForward edge h =
    let kind : Text = to_lower (trim_space edge.edge_kind) in
    record {
      no_handoff = λ e. ground (arith, text_eq_iff kind (bytes "handoff"));
      no_loop_back = λ e. ground (arith, text_eq_iff kind (bytes "loop_back"));
      from = λ e. ground (arith, text_eq_iff (trim_space edge.from_chunk_id) []);
      to = λ e. ground (arith, text_eq_iff (trim_space edge.to_chunk_id) []);
    }

forward-corridor_edge : (edge : PlanEdge) → IsForward edge → is_corridor_edge edge ≡ true
unfolding is_corridor_edge text_eq to_lower
forward-corridor_edge edge h =
    let kind : Text = to_lower (trim_space edge.edge_kind) in
    ground (
      arith,
      h.no_handoff,
      h.no_loop_back,
      h.from,
      h.to,
      text_eq_iff kind (bytes "handoff"),
      text_eq_iff kind (bytes "loop_back"),
      text_eq_iff (trim_space edge.from_chunk_id) [],
      text_eq_iff (trim_space edge.to_chunk_id) [],
    )

forward-IsLink :
    (edges : List PlanEdge) (u v : Text) → member v (forward edges u) ≡ true → IsLink edges u v
unfolding forward member
forward-IsLink [] u v h = cc
forward-IsLink (edge ∷ edges) u v h =
    elim (Bool-cases (is_corridor_edge edge && text_eq (trim_space edge.from_chunk_id) u)) [
      | inr off ↦ later (forward-IsLink edges u v (rw off at h))
      | inl on ↦ elim (Bool-cases (text_eq v (trim_space edge.to_chunk_id))) [
        | inr past ↦ later (forward-IsLink edges u v (ground arith))
        | inl hit ↦
            let from : trim_space edge.from_chunk_id ≡ u =
              (text_eq_iff (trim_space edge.from_chunk_id) u).0 (ground arith) in
            let to : trim_space edge.to_chunk_id ≡ v =
              sym ((text_eq_iff v (trim_space edge.to_chunk_id)).0 hit) in
            subst (λ x. IsLink (edge ∷ edges) x v) from
              (subst (IsLink (edge ∷ edges) (trim_space edge.from_chunk_id)) to
                (first (corridor_edge-IsForward edge (ground arith))))
      ]
    ]

link-forward :
    (edges : List PlanEdge) (u v : Text) → IsLink edges u v → member v (forward edges u) ≡ true
unfolding forward member
link-forward [] u v x = elim x [ ]
link-forward (edge ∷ edges) u v (first h) = ground (
  arith,
  forward-corridor_edge edge h,
  text_eq_iff (trim_space edge.from_chunk_id) (trim_space edge.from_chunk_id),
  text_eq_iff (trim_space edge.to_chunk_id) (trim_space edge.to_chunk_id),
)
link-forward (edge ∷ edges) u v (later h) = ground (arith, link-forward edges u v h)

module _ (edges : List PlanEdge) (u : Text) where
  reachable-IsForwardPath :
      (v : Text) → IsReachable (forward edges) (u ∷ []) v → IsForwardPath edges u v
  unfolding member
  reachable-IsForwardPath v (start m) =
      subst (IsForwardPath edges u) (sym ((text_eq_iff v u).0 (ground arith))) stay
  reachable-IsForwardPath v (step {u = w} r m) =
      along (reachable-IsForwardPath w r) (forward-IsLink edges w v m)

  path-IsReachable : (v : Text) → IsForwardPath edges u v → IsReachable (forward edges) (u ∷ []) v
  path-IsReachable v stay = start (member_self u [])
  path-IsReachable v (along {v = w} p l) = step (path-IsReachable w p) (link-forward edges w v l)

  pub IsForwardPath-iff :
      (v : Text) → IsReachable (forward edges) (u ∷ []) v ↔ IsForwardPath edges u v
  IsForwardPath-iff v = (reachable-IsForwardPath v, path-IsReachable v)
