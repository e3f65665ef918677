-- ===== src/Fshash/Growth.antt =====
-- What the visits of a part of the tree leave of the stacks and hashers that were there before it.
use repeatr.Base.{
  ℕ, ◌≤◌, ◌<◌, ◌≡◌, refl, sym, ◌∙◌, Text, Option, some, List, [], ◌∷◌, ◌++◌, map, ◌==◌, nat_eq,
  if◌then◌else◌, arith, Bool-cases, inl, inr,
}
use repeatr.Treewalk.{returned, ok}
use repeatr.Fs.{Item, bytes_item}
use repeatr.Fshash.{Record}
use repeatr.Fshash.State.{Upsub, set_answer, into, Hashing, write, upsub}
use mathlib.Core.List.{append_assoc, append-nil, map-append}

-- What reaches a hasher when the hashes `xs` are handed up.
abbrev pub received : List Upsub → List Text → ℕ → List Item → List Item
received [] xs k items = items
received (set_answer ∷ rest) xs k items = items
received (into h ∷ rest) xs k items = if h == k then items ++ map bytes_item xs else items

-- The last of the hashes handed up, if there is one.
abbrev pub last_answer : Option Text → List Text → Option Text
last_answer a [] = a
last_answer a (x ∷ xs) = last_answer (some x) xs

abbrev pub answer_after : List Upsub → List Text → Option Text → Option Text
answer_after [] xs a = a
answer_after (set_answer ∷ rest) xs a = last_answer a xs
answer_after (into h ∷ rest) xs a = a

-- The stacks are as before, and `xs` was handed up.
pub record Grown (xs : List Text) (s t : Hashing) : Type 0 where
  pub same_upsubs : t.upsubs ≡ s.upsubs
  pub same_hashers : t.hashers ≡ s.hashers
  pub more_hashers : s.next_hasher ≤ t.next_hasher
  pub contents : (k : ℕ) → k < s.next_hasher → t.written k ≡ received s.upsubs xs k (s.written k)
  pub answered : t.final_answer ≡ answer_after s.upsubs xs s.final_answer

received-append :
    (us : List Upsub) (xs ys : List Text) (k : ℕ) (items : List Item)
    → received us ys k (received us xs k items) ≡ received us (xs ++ ys) k items
received-append [] xs ys k items = refl
received-append (set_answer ∷ rest) xs ys k items = refl
received-append (into h ∷ rest) xs ys k items = elim (Bool-cases (h == k)) [
  | inl a ↦ rw (a, map-append, append_assoc) refl
  | inr a ↦ rw a refl
]

last_answer-append :
    (a : Option Text) (xs ys : List Text)
    → last_answer (last_answer a xs) ys ≡ last_answer a (xs ++ ys)
last_answer-append a [] ys = refl
last_answer-append a (x ∷ xs) ys = last_answer-append (some x) xs ys

answer_after-append :
    (us : List Upsub) (xs ys : List Text) (a : Option Text)
    → answer_after us ys (answer_after us xs a) ≡ answer_after us (xs ++ ys) a
answer_after-append [] xs ys a = refl
answer_after-append (set_answer ∷ rest) xs ys a = last_answer-append a xs ys
answer_after-append (into h ∷ rest) xs ys a = refl

received-nil : (us : List Upsub) (k : ℕ) (items : List Item) → received us [] k items ≡ items
received-nil [] k items = refl
received-nil (set_answer ∷ rest) k items = refl
received-nil (into h ∷ rest) k items = elim (Bool-cases (h == k)) [
  | inl a ↦ rw a (append-nil items)
  | inr a ↦ rw a refl
]

answer_after-nil : (us : List Upsub) (a : Option Text) → a ≡ answer_after us [] a
answer_after-nil [] a = refl
answer_after-nil (set_answer ∷ rest) a = refl
answer_after-nil (into h ∷ rest) a = refl

pub Grown-refl : (s : Hashing) → Grown [] s s
Grown-refl s = record {
  same_upsubs = refl;
  same_hashers = refl;
  more_hashers = omega arith;
  contents = λ k l. sym (received-nil s.upsubs k (s.written k));
  answered = answer_after-nil s.upsubs s.final_answer;
}

pub Grown-trans :
    (xs ys : List Text) (s t u : Hashing) → Grown xs s t → Grown ys t u → Grown (xs ++ ys) s u
Grown-trans xs ys s t u g h = record {
  same_upsubs = h.same_upsubs ∙ g.same_upsubs;
  same_hashers = h.same_hashers ∙ g.same_hashers;
  more_hashers = omega (arith, g.more_hashers, h.more_hashers);
  contents = λ k l.
      h.contents k (omega (arith, g.more_hashers))
      ∙ rw (g.same_upsubs, g.contents k l) (received-append s.upsubs xs ys k (s.written k));
  answered =
      h.answered
      ∙ rw (g.same_upsubs, g.answered) (answer_after-append s.upsubs xs ys s.final_answer);
}

-- A step that writes only to hashers that were not there before.
pub Grown-fresh :
    (s t : Hashing)
    → t.upsubs ≡ s.upsubs
    → t.hashers ≡ s.hashers
    → s.next_hasher ≤ t.next_hasher
    → ((k : ℕ) → k < s.next_hasher → t.written k ≡ s.written k)
    → t.final_answer ≡ s.final_answer
    → Grown [] s t
Grown-fresh s t u h n w a = record {
  same_upsubs = u;
  same_hashers = h;
  more_hashers = n;
  contents = λ k l. w k l ∙ sym (received-nil s.upsubs k (s.written k));
  answered = a ∙ answer_after-nil s.upsubs s.final_answer;
}

-- The state after `upsubs.Peek()(x)`.
abbrev pub after_upsub : List Upsub → Text → Hashing → Hashing
after_upsub [] x s = s
after_upsub (set_answer ∷ rest) x s = record s { final_answer = some x }
after_upsub (into h ∷ rest) x s = record s { written = write h (bytes_item x ∷ []) s.written }

pub after_upsub_same :
    (us : List Upsub) (x : Text) (s : Hashing)
    → ((after_upsub us x s).that ≡ s.that) × ((after_upsub us x s).visit_count ≡ s.visit_count)
after_upsub_same [] x s = (refl, refl)
after_upsub_same (set_answer ∷ rest) x s = (refl, refl)
after_upsub_same (into h ∷ rest) x s = (refl, refl)

pub Grown-after_upsub :
    (u : Upsub) (rest : List Upsub) (x : Text) (s : Hashing)
    → s.upsubs ≡ u ∷ rest
    → Grown (x ∷ []) s (after_upsub (u ∷ rest) x s)
Grown-after_upsub set_answer rest x s e = record {
  same_upsubs = refl;
  same_hashers = refl;
  more_hashers = omega arith;
  contents = λ k l. rw e refl;
  answered = rw e refl;
}
Grown-after_upsub (into h) rest x s e = record {
  same_upsubs = refl;
  same_hashers = refl;
  more_hashers = omega arith;
  contents = λ k l. rw e refl;
  answered = rw e refl;
}

pub upsub_lem :
    {E : Type 0}
    → (digest : List Item → Text) (lines : List Record) (u : Upsub) (rest : List Upsub) (x : Text)
      (s : Hashing)
    → upsub {E = E} digest lines (u ∷ rest) x s ≡ returned ok (after_upsub (u ∷ rest) x s)
upsub_lem digest lines set_answer rest x s = refl
upsub_lem digest lines (into h) rest x s = refl
