-- ===== src/Lineage/Model/Impact.antt =====
-- What `get_impact_chain` finds, and that its loop ends.
use stat_guardian.Base.{
  ℕ, zero, suc, ◌+◌, ◌≤◌, ◌<◌, String, ◌≡◌, refl, ap, ◌↔◌, ◌⊎◌, inl, inr, ⊎_elim, true, false, not,
  Option, some, List, [], ◌∷◌, ◌++◌, length, length-filter, map, filter, ◌==◌, string_eq, contains,
  contains_iff, Memᴰ, Memᴰ-cons, Memᴰ-nil, Memᴰ-append, arith, Bool-cases,
}
use stat_guardian.Base.Dedup.{IsDistinct}
use stat_guardian.Base.Distinct.{append-IsDistinct}
use stat_guardian.Lineage.Model.{
  LineageEdge, LineageGraph, get_upstream, get_downstream, push_unvisited, impact_loop,
  get_impact_chain,
}

-- `n` is `start`, or some edges lead from `start` to it.
pub data Reaches (g : LineageGraph) (start : String) : String → Type 0 where
  here : Reaches g start start
  along : {n d : String} → Reaches g start n → Memᴰ d (get_downstream g n) → Reaches g start d

Memᴰ-push_unvisited :
    (d : String) (visited ds queue : List String)
    → Memᴰ d (push_unvisited visited ds queue)
      ↔ (Memᴰ d queue ⊎ (Memᴰ d ds × (contains visited d ≡ false)))
unfolding push_unvisited
Memᴰ-push_unvisited d visited [] queue = ground (arith, Memᴰ-nil d)
Memᴰ-push_unvisited d visited (x ∷ ds) queue = ground (
  arith,
  Memᴰ-push_unvisited d visited ds queue,
  Memᴰ-push_unvisited d visited ds (x ∷ queue),
  Memᴰ-cons d x ds,
  Memᴰ-cons d x queue,
  contains_iff visited d,
  contains_iff visited x,
)

length-push_unvisited :
    (visited ds queue : List String)
    → length (push_unvisited visited ds queue) ≤ length ds + length queue
unfolding push_unvisited
length-push_unvisited visited [] queue = omega arith
length-push_unvisited visited (x ∷ ds) queue =
    ground
      (arith, length-push_unvisited visited ds queue, length-push_unvisited visited ds (x ∷ queue))

-- The edges that the loop may still follow.
abbrev open_edges : List String → List LineageEdge → ℕ
open_edges visited edges = length (filter (λ e. not (contains visited e.source_node_id)) edges)

abbrev followed : String → List LineageEdge → List String
followed current edges =
    map (λ (e : LineageEdge). e.target_node_id) (filter (λ e. e.source_node_id == current) edges)

-- Visiting a node takes its edges away.
open_edges-le :
    (visited : List String) (current : String) (edges : List LineageEdge)
    → contains visited current ≡ false
    → length (followed current edges) + open_edges (current ∷ visited) edges
      ≤ open_edges visited edges
open_edges-le visited current [] h = omega arith
open_edges-le visited current (e ∷ edges) h = ground (
  arith,
  open_edges-le visited current edges h,
  contains_iff visited current,
  contains_iff visited e.source_node_id,
  contains_iff (current ∷ visited) e.source_node_id,
  Memᴰ-cons e.source_node_id current visited,
  string_eq.is_same_iff e.source_node_id current,
)

record Explored (g : LineageGraph) (start : String) (queue visited affected : List String)
    : Type 0 where
  queued : (n : String) → Memᴰ n queue → Reaches g start n
  sound : (n : String) → Memᴰ n visited → Reaches g start n
  closed :
      (n d : String) → Memᴰ n visited → Memᴰ d (get_downstream g n) → Memᴰ d visited ⊎ Memᴰ d queue
  begun : Memᴰ start visited ⊎ Memᴰ start queue
  same : (n : String) → Memᴰ n affected ↔ Memᴰ n visited
  distinct : IsDistinct affected

-- The answer of a chain from `start`.
abbrev pub IsChain : LineageGraph → String → Option (List String) → Type 0
IsChain g start answer =
    (affected : List String) × (answer ≡ some affected)
    × ((n : String) → Memᴰ n affected ↔ Reaches g start n)
    × IsDistinct affected

module _ (g : LineageGraph) (start : String) where
  complete :
      (visited affected : List String) (n : String)
      → Explored g start [] visited affected
      → Reaches g start n
      → Memᴰ n visited
  complete visited affected n x here = ground (arith, x.begun, Memᴰ-nil start)
  complete visited affected d x (along {n} r m) =
      ⊎_elim (λ v. v) (λ q. absurd (Memᴰ-nil d q))
        (x.closed n d (complete visited affected n x r) m)

  skip :
      (current : String) (queue visited affected : List String)
      → contains visited current ≡ true
      → Explored g start (current ∷ queue) visited affected
      → Explored g start queue visited affected
  skip current queue visited affected old x = record {
    queued = λ n m. x.queued n (Memᴰ.tail m);
    sound = x.sound;
    closed = λ n d v m.
        ground (arith, x.closed n d v m, Memᴰ-cons d current queue, contains_iff visited d);
    begun = ground (arith, x.begun, Memᴰ-cons start current queue, contains_iff visited start);
    same = x.same;
    distinct = x.distinct;
  }

  expand :
      (current : String) (queue visited affected : List String)
      → contains visited current ≡ false
      → Explored g start (current ∷ queue) visited affected
      → Explored g start
          (push_unvisited (current ∷ visited) (get_downstream g current) queue)
          (current ∷ visited)
          (affected ++ current ∷ [])
  expand current queue visited affected new x =
      let next = get_downstream g current in
      let pushed = λ (d : String). Memᴰ-push_unvisited d (current ∷ visited) next queue in
      record {
        queued = λ n m. elim ((pushed n).0 m) [
          | inl old ↦ x.queued n (Memᴰ.tail old)
          | inr (down, fresh) ↦ along (x.queued current (Memᴰ.head refl)) down
        ];
        sound = λ n m. elim ((Memᴰ-cons n current visited).0 m) [
          | inl e ↦ rw e (x.queued current (Memᴰ.head refl))
          | inr old ↦ x.sound n old
        ];
        closed = λ n d v m. ground (
          arith,
          x.closed n d,
          pushed d,
          Memᴰ-cons n current visited,
          Memᴰ-cons d current visited,
          Memᴰ-cons d current queue,
          contains_iff visited d,
          string_eq.is_same_iff d current,
          ap (get_downstream g) {x = n} {y = current},
        );
        begun = ground (
          arith,
          x.begun,
          pushed start,
          Memᴰ-cons start current queue,
          Memᴰ-cons start current visited,
        );
        same = λ n. ground (
          arith,
          x.same n,
          Memᴰ-append n affected (current ∷ []),
          Memᴰ-cons n current [],
          Memᴰ-nil n,
          Memᴰ-cons n current visited,
        );
        distinct = append-IsDistinct affected current x.distinct (
            ground
              (arith, x.same current, contains_iff affected current, contains_iff visited current));
      }

  impact_loop-IsChain :
      (fuel : ℕ) (queue visited affected : List String)
      → Explored g start queue visited affected
      → length queue + open_edges visited g.edges < fuel
      → IsChain g start (impact_loop fuel g queue visited affected)
  unfolding impact_loop get_downstream
  impact_loop-IsChain zero queue visited affected x h = absurd (omega arith)
  impact_loop-IsChain (suc fuel) [] visited affected x h = (
    affected,
    refl,
    λ n. (λ m. x.sound n ((x.same n).0 m), λ r. (x.same n).1 (complete visited affected n x r)),
    x.distinct,
  )
  impact_loop-IsChain (suc fuel) (current ∷ queue) visited affected x h =
      elim (Bool-cases (contains visited current)) [
        | inl old ↦
            rw (old, impact_loop)
              (impact_loop-IsChain fuel queue visited affected
                (skip current queue visited affected old x) (omega arith))
        | inr new ↦
            let next = get_downstream g current in
            let fewer = open_edges-le visited current g.edges new in
            let longer = length-push_unvisited (current ∷ visited) next queue in
            rw (new, impact_loop)
              (impact_loop-IsChain fuel (push_unvisited (current ∷ visited) next queue)
                (current ∷ visited) (affected ++ current ∷ [])
                (expand current queue visited affected new x) (omega (arith, fewer, longer)))
      ]

  -- The loop of get_impact_chain ends within one round per edge and two more, and the chain holds
  -- exactly the nodes to which edges lead from the start, with the start itself, each once.
  pub get_impact_chain-IsChain : IsChain g start (get_impact_chain g start)
  unfolding get_impact_chain
  get_impact_chain-IsChain =
      impact_loop-IsChain (length g.edges + 2) (start ∷ []) [] []
        (record {
          queued = λ n m. elim ((Memᴰ-cons n start []).0 m) [
            | inl e ↦ rw e here
            | inr none_left ↦ absurd (Memᴰ-nil n none_left)
          ];
          sound = λ n m. absurd (Memᴰ-nil n m);
          closed = λ n d v m. absurd (Memᴰ-nil n v);
          begun = inr (Memᴰ.head refl);
          same = λ n. (λ m. m, λ m. m);
          distinct = tt;
        })
        (omega
          (arith, length-filter (λ (e : LineageEdge). not (contains [] e.source_node_id)) g.edges))

upstream_edges :
    (s t : String) (edges : List LineageEdge)
    → Memᴰ s
        (map (λ (e : LineageEdge). e.source_node_id) (filter (λ e. e.target_node_id == t) edges))
      ↔ Memᴰ t (followed s edges)
upstream_edges s t [] = ground (arith, Memᴰ-nil s, Memᴰ-nil t)
upstream_edges s t (e ∷ edges) =
    let sources =
      map (λ (e : LineageEdge). e.source_node_id) (filter (λ e. e.target_node_id == t) edges) in
    ground (
      arith,
      upstream_edges s t edges,
      Memᴰ-cons s e.source_node_id sources,
      Memᴰ-cons t e.target_node_id (followed s edges),
      string_eq.is_same_iff e.target_node_id t,
      string_eq.is_same_iff e.source_node_id s,
    )

-- A node is upstream of another exactly if that one is downstream of it.
upstream-iff-downstream :
    (g : LineageGraph) (s t : String) → Memᴰ s (get_upstream g t) ↔ Memᴰ t (get_downstream g s)
unfolding get_upstream get_downstream
upstream-iff-downstream g s t = upstream_edges s t g.edges
