-- ===== src/Catalog/Slices.antt =====
-- rsrch/model/catalog/catalog.go once more, over Go's slices: a track is a length and the address
-- of an array, and `append` writes into the array where it has room. How much room a new array
-- gets is the runtime's choice, the argument `spare`.
use repeatr.Base.{
  lt→ltb, ltb→lt, ℕ, zero, suc, ◌<◌, ◌≤◌, ◌≡◌, refl, ap, ◌∙◌, Option, none, some, List, [], ◌∷◌,
  ◌++◌, Text, text_eq, nat_eq, arith, ◌==◌, if◌then◌else◌, ltb, length, take, set, Bool-cases, inl,
  inr, false,
}
use repeatr.Base.Dict.{Dict, lookup, insert, NodupKeys, lookup-nil, lookup-insert}
use repeatr.Formula.{Ware}
use repeatr.Catalog.{no_sku, copy_tracks}
use repeatr.Catalog.Laws.{lookup-copy_tracks}

pub record Slice : Type 0 where
  pub array : ℕ
  pub len : ℕ

-- The arrays, each as long as its capacity. From the address `unused` on none is in use.
pub record Arrays : Type 0 where
  pub cells : ℕ → List Ware
  pub unused : ℕ

pub record SharedBook : Type 0 where
  pub id : Text
  pub tracks : Dict Text Slice

-- What a slice shows.
abbrev pub shows : Arrays → Slice → List Ware
shows m s = take s.len (m.cells s.array)

abbrev put_array : (ℕ → List Ware) → ℕ → List Ware → ℕ → List Ware
put_array cells a v b = if b == a then v else cells b

abbrev pub blanks : ℕ → List Ware
blanks zero = []
blanks (suc n) = no_sku ∷ blanks n

-- What a track shows; a missing track is nil, which shows nothing.
abbrev pub shows_track : Arrays → Option Slice → List Ware
shows_track m none = []
shows_track m (some s) = shows m s

module _ (spare : ℕ → ℕ) where
  -- `append` where there is no room: a new array with the old items.
  abbrev pub append_new : Ware → List Ware → Arrays → Slice × Arrays
  append_new w xs m = (
    record { array = m.unused; len = suc (length xs) },
    record {
      cells = put_array m.cells m.unused (xs ++ (w ∷ blanks (spare (length xs))));
      unused = suc m.unused;
    },
  )

  -- `append`
  unfoldable pub append : Ware → Option Slice → Arrays → Slice × Arrays
  append w none m = append_new w [] m
  append w (some s) m =
      if ltb s.len (length (m.cells s.array))
      then (
        record s { len = suc s.len },
        record m { cells = put_array m.cells s.array (set (m.cells s.array) s.len w) },
      )
      else append_new w (shows m s) m

  -- `Release`, with the loop of `clone`, which copies the slices and not their arrays.
  unfoldable pub release : Text → Ware → SharedBook → Arrays → SharedBook × Arrays
  release name w b m =
      let tracks = copy_tracks b.tracks [] in
      let (s, m') = append w (lookup name tracks) m in
      (record { id = b.id; tracks = insert name s tracks }, m')

-- Every slice of the book is within its array, and the array is in use.
abbrev pub IsSound : Arrays → SharedBook → Type 0
IsSound m b =
    (name : Text) (s : Slice)
    → lookup name b.tracks ≡ some s
    → (s.len ≤ length (m.cells s.array)) × (s.array < m.unused)

take-set_past : (n i : ℕ) (v : Ware) (xs : List Ware) → n ≤ i → take n (set xs i v) ≡ take n xs
take-set_past zero i v xs h = refl
take-set_past (suc n) i v [] h = refl
take-set_past (suc n) zero v (x ∷ xs) h = absurd (omega arith)
take-set_past (suc n) (suc i) v (x ∷ xs) h = ap (λ r. x ∷ r) (take-set_past n i v xs (omega arith))

take-set_at :
    (i : ℕ) (v : Ware) (xs : List Ware)
    → i < length xs
    → take (suc i) (set xs i v) ≡ take i xs ++ (v ∷ [])
take-set_at i v [] h = absurd (omega arith)
take-set_at zero v (x ∷ xs) h = refl
take-set_at (suc i) v (x ∷ xs) h = ap (λ r. x ∷ r) (take-set_at i v xs (omega arith))

length-set : (i : ℕ) (v : Ware) (xs : List Ware) → length (set xs i v) ≡ length xs
length-set i v [] = refl
length-set zero v (x ∷ xs) = refl
length-set (suc i) v (x ∷ xs) = ap suc (length-set i v xs)

take-append_one :
    (v : Ware) (xs ys : List Ware) → take (suc (length xs)) (xs ++ (v ∷ ys)) ≡ xs ++ (v ∷ [])
take-append_one v [] ys = refl
take-append_one v (x ∷ xs) ys = ap (λ r. x ∷ r) (take-append_one v xs ys)

put_array_self : (cells : ℕ → List Ware) (a : ℕ) (v : List Ware) → put_array cells a v a ≡ v
put_array_self cells a v = ground arith

module _ (spare : ℕ → ℕ) (w : Ware) where
  append-room :
      (s : Slice) (m : Arrays)
      → s.len < length (m.cells s.array)
      → append spare w (some s) m ≡ (
        record s { len = suc s.len },
        record m { cells = put_array m.cells s.array (set (m.cells s.array) s.len w) },
      )
  unfolding append
  append-room s m h = rw (lt→ltb s.len (length (m.cells s.array)) h)

  append-full :
      (s : Slice) (m : Arrays)
      → ltb s.len (length (m.cells s.array)) ≡ false
      → append spare w (some s) m ≡ append_new spare w (shows m s) m
  unfolding append
  append-full s m h = rw h

  shows-append_new :
      (xs : List Ware) (m : Arrays)
      → shows (append_new spare w xs m).1 (append_new spare w xs m).0 ≡ xs ++ (w ∷ [])
  shows-append_new xs m =
      rw (put_array_self m.cells m.unused (xs ++ (w ∷ blanks (spare (length xs)))))
        (take-append_one w xs (blanks (spare (length xs))))

  shows-append :
      (o : Option Slice) (m : Arrays)
      → shows (append spare w o m).1 (append spare w o m).0 ≡ shows_track m o ++ (w ∷ [])
  shows-append none m = unfold append in shows-append_new [] m
  shows-append (some s) m = elim (Bool-cases (ltb s.len (length (m.cells s.array)))) [
    | inl room ↦ rw (append-room s m (ltb→lt _ _ room)) (
        rw (put_array_self m.cells s.array (set (m.cells s.array) s.len w))
          (take-set_at s.len w (m.cells s.array) (ltb→lt _ _ room)))
    | inr full ↦ rw (append-full s m full) (shows-append_new (shows m s) m)
  ]

  -- The slice that `append` is called on shows what it showed.
  shows_old :
      (s : Slice) (m : Arrays)
      → s.array < m.unused
      → shows (append spare w (some s) m).1 s ≡ shows m s
  shows_old s m h = elim (Bool-cases (ltb s.len (length (m.cells s.array)))) [
    | inl room ↦ rw (append-room s m (ltb→lt _ _ room)) (
        rw (put_array_self m.cells s.array (set (m.cells s.array) s.len w))
          (take-set_past s.len s.len w (m.cells s.array) (omega arith)))
    | inr full ↦ rw (append-full s m full) (ground arith)
  ]

module _ (spare : ℕ → ℕ) (name : Text) (b : SharedBook) (d : NodupKeys b.tracks) where
  released :
      (w : Ware) (m : Arrays)
      → lookup name (release spare name w b m).0.tracks
        ≡ some (append spare w (lookup name b.tracks) m).0
  unfolding release
  released w m =
      rw (lookup-insert, lookup-copy_tracks name b.tracks [] d (lookup-nil {V = Slice} name))
        (ground arith)

  released_arrays :
      (w : Ware) (m : Arrays)
      → (release spare name w b m).1 ≡ (append spare w (lookup name b.tracks) m).1
  unfolding release
  released_arrays w m =
      rw (lookup-copy_tracks name b.tracks [] d (lookup-nil {V = Slice} name)) refl

-- From a sound book with no track twice, the track of the new edition shows the old track with the product at its end, as `Release` over
-- values has it, and the edition that it was released from still shows what it showed.
pub release-appends :
    (spare : ℕ → ℕ) (name : Text) (w : Ware) (b : SharedBook) (m : Arrays)
    → NodupKeys b.tracks
    → IsSound m b
    → let (b', m') = release spare name w b m in
      (shows_track m' (lookup name b'.tracks) ≡ shows_track m (lookup name b.tracks) ++ (w ∷ []))
      × (shows_track m' (lookup name b.tracks) ≡ shows_track m (lookup name b.tracks))
release-appends spare name w b m d sound = (
  rw (released spare name b d w m, released_arrays spare name b d w m)
      (shows-append spare w (lookup name b.tracks) m),
  rw (released_arrays spare name b d w m) (kept (lookup name b.tracks) (λ s e. (sound name s e).1)),
)
  where
    kept :
        (o : Option Slice)
        → ((s : Slice) → o ≡ some s → s.array < m.unused)
        → shows_track (append spare w o m).1 o ≡ shows_track m o
    kept none h = refl
    kept (some s) h = shows_old spare w s m (h s refl)

-- In a book with no track twice, if the array of a track has room, a second release from the same edition writes over the first:
-- the edition that the first one returned now shows the product of the second one as its last.
pub release-clobbers :
    (spare : ℕ → ℕ) (name : Text) (x y : Ware) (b : SharedBook) (m : Arrays) (s : Slice)
    → NodupKeys b.tracks
    → lookup name b.tracks ≡ some s
    → s.len < length (m.cells s.array)
    → let (first, m') = release spare name x b m in
      let (second, m'') = release spare name y b m' in
      shows_track m'' (lookup name first.tracks) ≡ shows m s ++ (y ∷ [])
release-clobbers spare name x y b m s d e h =
    rw
      (
        released spare name b d x m,
        released_arrays spare name b d y (release spare name x b m).1,
        released_arrays spare name b d x m,
      )
      (rw (e, append-room spare x s m h)
        (rw (append-room spare y s after_first room) (
          rw (put_array_self after_first.cells s.array (set (after_first.cells s.array) s.len y)) (
            rw (put_array_self m.cells s.array cells) (
              take-set_at s.len y cells (omega (arith, length-set s.len x (m.cells s.array)))
              ∙ ap (λ xs. xs ++ (y ∷ []))
                  (take-set_past s.len s.len x (m.cells s.array) (omega arith)))))))
  where
    cells : List Ware
    cells = set (m.cells s.array) s.len x

    after_first : Arrays
    after_first = record m { cells = put_array m.cells s.array cells }

    room : s.len < length (after_first.cells s.array)
    room =
        rw (put_array_self m.cells s.array cells)
          (omega (arith, length-set s.len x (m.cells s.array)))
