-- ===== src/Treewalk.antt =====
-- lib/treewalk/walk.go. A node's `NextChild` and the visit functions change a shared state, and
-- may panic. `walk` runs on fuel, and `none` is that the fuel was too little.
pub mod Rule
use repeatr.Base.{ℕ, zero, suc, Option, none, some}

-- What a call gives that may panic.
pub data Run (P S A : Type 0) : Type 0 where
  returned : A → S → Run P S A
  panicked : P → Run P S A

-- The `error` that a visit function returns: nil, `SkipNode`, or another.
pub data Answer (E : Type 0) : Type 0 where
  ok skip_node : Answer E
  failed : E → Answer E

-- `type WalkFunc`
abbrev pub WalkFunc : Type 0 → Type 0 → Type 0 → Type 0 → Type 0
WalkFunc N P S E = N → S → Run P S (Answer E)

module _ {P S A B : Type 0} where
  abbrev pub after : Run P S A → (A → S → Option (Run P S B)) → Option (Run P S B)
  after (returned a s) k = k a s
  after (panicked p) k = some (panicked p)

  abbrev pub then_walk : Option (Run P S A) → (A → S → Option (Run P S B)) → Option (Run P S B)
  then_walk none k = none
  then_walk (some r) k = after r k

module _ {P S E : Type 0} where
  -- After `preVisit`: the children, unless it returned an error.
  abbrev pub entered :
      (S → Option (Run P S (Option E))) → Answer E → S → Option (Run P S (Option E))
  entered children ok s = children s
  entered children skip_node s = some (returned none s)
  entered children (failed e) s = some (returned (some e) s)

  abbrev pub left : Answer E → S → Option (Run P S (Option E))
  left ok s = some (returned none s)
  left skip_node s = some (returned none s)
  left (failed e) s = some (returned (some e) s)

  -- After one child: the next, unless its walk returned an error.
  abbrev pub walked : (S → Option (Run P S (Option E))) → Option E → S → Option (Run P S (Option E))
  walked rest none s = rest s
  walked rest (some e) s = some (returned (some e) s)

module _ {N P S E : Type 0} where
  -- A visit function that is nil is not called.
  abbrev pub visit : Option (WalkFunc N P S E) → WalkFunc N P S E
  visit none node s = returned ok s
  visit (some f) node s = f node s

  -- After the children: `postVisit`, unless one of them returned an error.
  abbrev pub leave : Option (WalkFunc N P S E) → N → Option E → S → Option (Run P S (Option E))
  leave post node none s = after (visit post node s) left
  leave post node (some e) s = some (returned (some e) s)

  abbrev pub stepped :
      (N → S → Option (Run P S (Option E)))
      → (S → Option (Run P S (Option E)))
      → Option N
      → S
      → Option (Run P S (Option E))
  stepped walk rest none s = some (returned none s)
  stepped walk rest (some child) s = then_walk (walk child s) (walked rest)

  module _ (next_child : N → S → Run P S (Option N)) where
    -- The loop over the children.
    unfoldable pub walk_children :
        (N → S → Option (Run P S (Option E))) → ℕ → N → S → Option (Run P S (Option E))
    walk_children walk zero node s = none
    walk_children walk (suc n) node s =
        after (next_child node s) (stepped walk (walk_children walk n node))

    -- `Walk`
    unfoldable pub walk :
        Option (WalkFunc N P S E)
        → Option (WalkFunc N P S E)
        → ℕ
        → N
        → S
        → Option (Run P S (Option E))
    unfolding walk_children
    walk pre post zero node s = none
    walk pre post (suc n) node s = after (visit pre node s) (
        entered
          (λ s'. then_walk (walk_children (walk pre post n) (suc n) node s') (leave post node)))
