-- ===== src/Treewalk/Rule.antt =====
-- A rule for `Walk`: what each visit and each `NextChild` keeps, the whole walk keeps, and a measure
-- that every child lowers bounds the fuel.
use repeatr.Base.{ℕ, zero, suc, ◌≤◌, ◌<◌, Option, none, some, arith}
use repeatr.Treewalk.{
  Run, returned, panicked, Answer, ok, skip_node, failed, WalkFunc, after, then_walk, visit,
  entered, left, leave, walked, stepped, walk_children, walk,
}

module _ {P S A : Type 0} where
  -- A postcondition of a call, and one of its panics.
  unfoldable pub Returning : (P → Type 0) → (A → S → Type 0) → Run P S A → Type 0
  Returning F Q (returned a s) = Q a s
  Returning F Q (panicked p) = F p

  -- The fuel is enough, and the postcondition holds.
  unfoldable pub Finishing : (P → Type 0) → (A → S → Type 0) → Option (Run P S A) → Type 0
  unfolding Returning
  Finishing F Q none = ⊥
  Finishing F Q (some r) = Returning F Q r

-- What a part of a program keeps: `Enter` where a walk of a node starts, `Inside` between its
-- children, since the state where it started, and `Done` where it ends.
pub record Contract (N S : Type 0) : Type 1 where
  pub measure : S → ℕ
  pub Enter : N → S → Type 0
  pub Inside : N → S → S → Type 0
  pub Exhausted : N → S → S → Type 0
  pub Done : N → S → S → Type 0
  pub inside_le : (node : N) (s s' : S) → Inside node s s' → measure s' ≤ measure s
  pub done_le : (node : N) (s s' : S) → Done node s s' → measure s' ≤ measure s

module _ {N S E : Type 0} (c : Contract N S) where
  unfoldable pub Answered : N → S → Answer E → S → Type 0
  Answered node s ok s' = c.Inside node s s'
  Answered node s skip_node s' = c.Done node s s'
  Answered node s (failed e) s' = Unit {0}

  unfoldable pub Ended : N → S → Answer E → S → Type 0
  Ended node s ok s' = c.Done node s s'
  Ended node s skip_node s' = c.Done node s s'
  Ended node s (failed e) s' = Unit {0}

  -- Without an error the walk is done.
  unfoldable pub Walked : N → S → Option E → S → Type 0
  Walked node s none s' = c.Done node s s'
  Walked node s (some e) s' = Unit {0}

  unfoldable pub Emptied : N → S → Option E → S → Type 0
  Emptied node s none s' = c.Exhausted node s s'
  Emptied node s (some e) s' = Unit {0}

module _ {N S : Type 0} (c : Contract N S) where
  unfoldable pub Stepped : N → S → S → Option N → S → Type 0
  Stepped node s s' none t = c.Exhausted node s t
  Stepped node s s' (some child) t =
      c.Enter child t
      × (c.measure t < c.measure s')
      × ((u : S) → c.Done child t u → c.Inside node s u)

module _ {P S A B : Type 0} (F : P → Type 0) (Q : A → S → Type 0) (R : B → S → Type 0) where
  after-keeps :
      (r : Run P S A) (k : A → S → Option (Run P S B))
      → Returning F Q r
      → ((a : A) (s : S) → Q a s → Finishing F R (k a s))
      → Finishing F R (after r k)
  unfolding Returning Finishing
  after-keeps (returned a s) k q h = h a s q
  after-keeps (panicked p) k q h = q

  then_walk-keeps :
      (r : Option (Run P S A)) (k : A → S → Option (Run P S B))
      → Finishing F Q r
      → ((a : A) (s : S) → Q a s → Finishing F R (k a s))
      → Finishing F R (then_walk r k)
  unfolding Returning Finishing
  then_walk-keeps none k q h = absurd q
  then_walk-keeps (some r) k q h = after-keeps r k q h

module _ {N P S E : Type 0} (c : Contract N S) (F : P → Type 0)
    (next_child : N → S → Run P S (Option N)) (pre post : Option (WalkFunc N P S E))
    (pre-keeps : (node : N) (s : S)
      → c.Enter node s
      → Returning F (Answered c node s) (visit pre node s))
    (next-keeps : (node : N) (s s' : S)
      → c.Inside node s s'
      → Returning F (Stepped c node s s') (next_child node s'))
    (post-keeps : (node : N) (s s' : S)
      → c.Exhausted node s s'
      → Returning F (Ended c node s) (visit post node s')) where
  walked-keeps :
      (node child : N) (s s' t : S) (rest : S → Option (Run P S (Option E)))
      → ((u : S)
          → c.Inside node s u
          → c.measure u < c.measure s'
          → Finishing F (Emptied c node s) (rest u))
      → c.measure t < c.measure s'
      → ((u : S) → c.Done child t u → c.Inside node s u)
      → (err : Option E) (u : S) → Walked c child t err u
      → Finishing F (Emptied c node s) (walked rest err u)
  unfolding Walked Finishing Returning Emptied
  walked-keeps node child s s' t rest h l k none u d =
      h u (k u d) (omega (arith, c.done_le child t u d))
  walked-keeps node child s s' t rest h l k (some e) u d = tt

  stepped-keeps :
      (n : ℕ) (go : N → S → Option (Run P S (Option E)))
      → ((node : N) (s : S)
          → c.Enter node s
          → c.measure s < n
          → Finishing F (Walked c node s) (go node s))
      → (node : N) (s s' : S) (rest : S → Option (Run P S (Option E)))
      → ((u : S)
          → c.Inside node s u
          → c.measure u < c.measure s'
          → Finishing F (Emptied c node s) (rest u))
      → c.measure s' ≤ n
      → (child : Option N) (t : S) → Stepped c node s s' child t
      → Finishing F (Emptied c node s) (stepped go rest child t)
  unfolding Stepped
  stepped-keeps n go h node s s' rest again b none t x = unfold Finishing Returning Emptied in x
  stepped-keeps n go h node s s' rest again b (some child) t (e, lt, k) =
      then_walk-keeps F (Walked c child t) (Emptied c node s) (go child t) (walked rest)
        (h child t e (omega arith)) (walked-keeps node child s s' t rest again lt k)

  children-keep :
      (n : ℕ) (go : N → S → Option (Run P S (Option E)))
      → ((node : N) (s : S)
          → c.Enter node s
          → c.measure s < n
          → Finishing F (Walked c node s) (go node s))
      → (m : ℕ) (node : N) (s s' : S) → c.Inside node s s'
      → c.measure s' < m
      → c.measure s' ≤ n
      → Finishing F (Emptied c node s) (walk_children next_child go m node s')
  unfolding walk_children
  children-keep n go h zero node s s' i l b = absurd (omega arith)
  children-keep n go h (suc m) node s s' i l b =
      after-keeps F (Stepped c node s s') (Emptied c node s) (next_child node s') _
        (next-keeps node s s' i)
        (stepped-keeps n go h node s s' (walk_children next_child go m node)
          (λ u j lt. children-keep n go h m node s u j (omega arith) (omega arith)) b)

  left-keeps :
      (node : N) (s : S) (a : Answer E) (t : S)
      → Ended c node s a t
      → Finishing {P = P} F (Walked c node s) (left a t)
  unfolding Ended Finishing Returning Walked
  left-keeps node s ok t d = d
  left-keeps node s skip_node t d = d
  left-keeps node s (failed e) t d = tt

  leave-keeps :
      (node : N) (s : S) (err : Option E) (t : S)
      → Emptied c node s err t
      → Finishing F (Walked c node s) (leave post node err t)
  unfolding Emptied
  leave-keeps node s none t x =
      after-keeps F (Ended c node s) (Walked c node s) (visit post node t) left
        (post-keeps node s t x) (left-keeps node s)
  leave-keeps node s (some e) t x = unfold Finishing Returning Walked in tt

  entered-keeps :
      (node : N) (s : S) (kids : S → Option (Run P S (Option E)))
      → ((t : S) → c.Inside node s t → Finishing F (Walked c node s) (kids t))
      → (a : Answer E) (t : S) → Answered c node s a t
      → Finishing F (Walked c node s) (entered kids a t)
  unfolding Answered
  entered-keeps node s kids h ok t i = h t i
  entered-keeps node s kids h skip_node t d = unfold Finishing Returning Walked in d
  entered-keeps node s kids h (failed e) t d = unfold Finishing Returning Walked in tt

  -- With visits and a `NextChild` that keep the contract and more fuel than the measure, `Walk` of a
  -- node that may be entered ends, and where it returns without an error the node is done.
  pub walk-keeps :
      (n : ℕ) (node : N) (s : S)
      → c.Enter node s
      → c.measure s < n
      → Finishing F (Walked c node s) (walk next_child pre post n node s)
  unfolding walk
  walk-keeps zero node s e l = absurd (omega arith)
  walk-keeps (suc n) node s e l =
      after-keeps F (Answered c node s) (Walked c node s) (visit pre node s) _ (pre-keeps node s e)
        (entered-keeps node s
          (λ t.
            then_walk (walk_children next_child (walk next_child pre post n) (suc n) node t)
              (leave post node))
          (λ t i.
            then_walk-keeps F (Emptied c node s) (Walked c node s)
              (walk_children next_child (walk next_child pre post n) (suc n) node t)
              (leave post node)
              (children-keep n (walk next_child pre post n) (walk-keeps n) (suc n) node s t i
                (omega (arith, c.inside_le node s t i)) (omega (arith, c.inside_le node s t i)))
              (leave-keeps node s)))
