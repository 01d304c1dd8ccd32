-- ===== src/Planner/Edges.antt =====
-- The dictionaries that `get_execution_order` (python/tom/agents/planner.py) builds before its loop.
use tom.Prelude.{
  ℕ, ◌≤◌, String, ◌≡◌, sym, subst, inl, inr, true, none, List, [], ◌∷◌, ◌++◌, arith, str_eq, eq_iff,
  All-map, IsIn, Bool-cases,
}
use tom.Dict.{Dict, get, has}
use tom.Executor.State.{PlanStep}
use tom.Planner.Graph.{modify, increment, Graph, add_edge, add_dependencies, add_edges}
use tom.Planner.Counts.{hit_self, pending}
use tom.Planner.Keys.{occ, occ-modify}
use tom.Planner.Invariant.{IsCovered, IsCovered-less}
use tom.Planner.Entries.{
  HasEntries-less, degree-same, modify-none, hit_other, modify-same, pending-modify, degree-other,
  modify-HasEntries, HasEntries, HasEdges,
}

module _ (steps : Dict PlanStep) where
  -- The degrees cover the entries while edges are added.
  abbrev pub Covers : String → Graph → Type 0
  Covers j g = IsCovered (get g.in_degree j) (pending g.adj [] j)

  edge-Covers :
      (s d j : String) (g : Graph)
      → Covers j g
      → Covers j (record {
        adj = modify g.adj d (λ ks. ks ++ s ∷ []);
        in_degree = modify g.in_degree s increment;
      })
  edge-Covers s d j g h = elim (Bool-cases (str_eq s j)) [
    | inl e ↦
        subst
          (λ i.
            IsCovered (get g.in_degree i) (pending g.adj [] i)
            → IsCovered (get (modify g.in_degree s increment) i)
                (pending (modify g.adj d (λ ks. ks ++ s ∷ [])) [] i))
          ((eq_iff s j).0 e)
          (degree-same g.in_degree s _ _ (omega (arith, pending-modify g.adj d s s, hit_self s))) h
    | inr e ↦ rw (degree-other g.in_degree s j increment e) (
        IsCovered-less (get g.in_degree j) _ _
          (omega (arith, pending-modify g.adj d s j, hit_other s j e)) h)
  ]

  add_edge-Covers : (s d j : String) (g : Graph) → Covers j g → Covers j (add_edge steps s d g)
  unfolding add_edge
  add_edge-Covers s d j g h = elim (Bool-cases (has steps d)) [
    | inr e ↦ rw (e, add_edge) h
    | inl e ↦ rw (e, add_edge) (edge-Covers s d j g h)
  ]

  add_edge-HasEntries :
      (n : ℕ) (s k d j : String) (g : Graph)
      → HasEntries n g.adj d j
      → HasEntries n (add_edge steps s k g).adj d j
  unfolding add_edge
  add_edge-HasEntries n s k d j g h = elim (Bool-cases (has steps k)) [
    | inr e ↦ rw (e, add_edge) h
    | inl e ↦ rw (e, add_edge) (modify-HasEntries n g.adj d j k s h)
  ]

  -- The entry of a dependency on a step of the plan.
  add_edge-adds :
      (j d : String) (g : Graph)
      → HasEntries 0 g.adj d j
      → has steps d ≡ true
      → HasEntries 1 (add_edge steps j d g).adj d j
  unfolding add_edge
  add_edge-adds j d g h e =
      rw (e, add_edge)
        (HasEntries-less _ 1 _ d j (omega (arith, hit_self j)) (modify-same 0 g.adj d j j h))

  -- A property of graphs that an edge keeps is kept by all edges.
  module _ (P : Graph → Type 0)
      (keeps : (s d : String) (g : Graph) → P g → P (add_edge steps s d g)) where
    add_dependencies-keeps :
        (s : String) (deps : List String) (g : Graph) → P g → P (add_dependencies steps s deps g)
    unfolding add_dependencies
    add_dependencies-keeps s [] g h = h
    add_dependencies-keeps s (d ∷ deps) g h =
        add_dependencies-keeps s deps (add_edge steps s d g) (keeps s d g h)

    add_edges-keeps : (ss : List PlanStep) (g : Graph) → P g → P (add_edges steps ss g)
    unfolding add_edges
    add_edges-keeps [] g h = h
    add_edges-keeps (s ∷ ss) g h =
        add_edges-keeps ss (add_dependencies steps s.step_id s.dependencies g)
          (add_dependencies-keeps s.step_id s.dependencies g h)

  pub add_edges-Covers :
      (j : String) (ss : List PlanStep) (g : Graph) → Covers j g → Covers j (add_edges steps ss g)
  add_edges-Covers j = add_edges-keeps (Covers j) (λ s d g. add_edge-Covers s d j g)

  module _ (n : ℕ) (d j : String) where
    abbrev Has : Graph → Type 0
    Has g = HasEntries n g.adj d j

    add_dependencies-HasEntries :
        (s : String) (deps : List String) (g : Graph)
        → Has g
        → Has (add_dependencies steps s deps g)
    add_dependencies-HasEntries =
        add_dependencies-keeps Has (λ s k g. add_edge-HasEntries n s k d j g)

    add_edges-HasEntries : (ss : List PlanStep) (g : Graph) → Has g → Has (add_edges steps ss g)
    add_edges-HasEntries = add_edges-keeps Has (λ s k g. add_edge-HasEntries n s k d j g)

  -- Every step of the plan has a list.
  abbrev pub HasLists : Graph → Type 0
  HasLists g = (d j : String) → has steps d ≡ true → HasEntries 0 g.adj d j

  add_dependencies-HasEdges :
      (j : String) (deps : List String) (g : Graph)
      → HasLists g
      → HasEdges steps (add_dependencies steps j deps g).adj j deps
  unfolding add_dependencies
  add_dependencies-HasEdges j [] g h = tt
  add_dependencies-HasEdges j (d ∷ deps) g h = (
    elim (Bool-cases (has steps d)) [
      | inl e ↦ inr (
          add_dependencies-HasEntries 1 d j j deps (add_edge steps j d g)
            (add_edge-adds j d g (h d j e) e))
      | inr e ↦ inl e
    ],
    add_dependencies-HasEdges j deps (add_edge steps j d g)
        (λ i k e. add_edge-HasEntries 0 j d i k g (h i k e)),
  )

  pub add_edges-HasEdges :
      (s : PlanStep) (ss : List PlanStep) (g : Graph)
      → HasLists g
      → IsIn s ss
      → HasEdges steps (add_edges steps ss g).adj s.step_id s.dependencies
  unfolding add_edges
  add_edges-HasEdges s [] g h i = absurd i
  add_edges-HasEdges s (t ∷ ss) g h (inl e) =
      subst
        (λ u.
          HasEdges steps
            (add_edges steps ss (add_dependencies steps t.step_id t.dependencies g)).adj u.step_id
            u.dependencies)
        (sym e)
        (All-map
          (λ d x. elim x [
            | inl b ↦ inl b
            | inr y ↦ inr (
                add_edges-HasEntries 1 d t.step_id ss
                  (add_dependencies steps t.step_id t.dependencies g) y)
          ])
          t.dependencies (add_dependencies-HasEdges t.step_id t.dependencies g h))
  add_edges-HasEdges s (t ∷ ss) g h (inr i) =
      add_edges-HasEdges s ss (add_dependencies steps t.step_id t.dependencies g)
        (λ d j e. add_dependencies-HasEntries 0 d j t.step_id t.dependencies g (h d j e)) i

  add_edge-none :
      (s d j : String) (g : Graph)
      → get g.in_degree j ≡ none
      → get (add_edge steps s d g).in_degree j ≡ none
  unfolding add_edge
  add_edge-none s d j g h = elim (Bool-cases (has steps d)) [
    | inr e ↦ rw (e, add_edge) h
    | inl e ↦ rw (e, add_edge) (modify-none g.in_degree s j increment h)
  ]

  add_edge-occ :
      (s d j : String) (g : Graph)
      → occ j g.in_degree ≤ 1
      → occ j (add_edge steps s d g).in_degree ≤ 1
  unfolding add_edge
  add_edge-occ s d j g h = elim (Bool-cases (has steps d)) [
    | inr e ↦ rw (e, add_edge) h
    | inl e ↦ rw (e, add_edge) (occ-modify g.in_degree s j increment h)
  ]

  pub add_edges-none :
      (j : String) (ss : List PlanStep) (g : Graph)
      → get g.in_degree j ≡ none
      → get (add_edges steps ss g).in_degree j ≡ none
  add_edges-none j =
      add_edges-keeps (λ g. get g.in_degree j ≡ none) (λ s d g. add_edge-none s d j g)

  pub add_edges-occ :
      (j : String) (ss : List PlanStep) (g : Graph)
      → occ j g.in_degree ≤ 1
      → occ j (add_edges steps ss g).in_degree ≤ 1
  add_edges-occ j = add_edges-keeps (λ g. occ j g.in_degree ≤ 1) (λ s d g. add_edge-occ s d j g)
