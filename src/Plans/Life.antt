-- ===== src/Plans/Life.antt =====
-- The life of a plan queue: the steps that a foreman can make, in any order, and what holds in
-- every state that they reach.
use repeatr.Base.{
  ℕ, ◌≡◌, ◌≢◌, ◌∙◌, sym, true, false, none, some, [], Text, arith, contains, nat_eq, text_eq,
}
use repeatr.Base.Dict.{lookup}
use repeatr.Plans.{Plan, Plans, assign, new_plans, push, lease_next, unlease, finish}
use repeatr.Plans.Invariant.{
  IsValid, new_plans-IsValid, push-IsValid, lease_next-IsValid, unlease-IsValid, finish-IsValid,
}

-- A plan at an address that the queue does not hold, as `&plan{...}` makes one.
unfoldable pub allocate : ℕ → Plan → Plans → Plans
allocate p x ps = record ps { heap = assign ps.heap p x }

pub data Step (ps : Plans) : Plans → Type 0 where
  pushes :
      (p : ℕ) (x : Plan)
      → contains ps.queue p ≡ false
      → x.leased_as ≡ []
      → Step ps (push p (allocate p x ps))
  leases :
      (token : Text)
      → token ≢ []
      → lookup token ps.leases_index ≡ none
      → Step ps (lease_next token ps).0
  unleases : (token : Text) → Step ps (unlease token ps)
  finishes : (token : Text) → Step ps (finish token ps)

pub data Reach (heap : ℕ → Plan) : Plans → Type 0 where
  start : Reach heap (new_plans heap)
  next : {ps qs : Plans} → Reach heap ps → Step ps qs → Reach heap qs

pub allocate-IsValid :
    (p : ℕ) (x : Plan) (ps : Plans)
    → contains ps.queue p ≡ false
    → IsValid ps
    → IsValid (allocate p x ps)
unfolding allocate
allocate-IsValid p x ps fresh v = record {
  distinct = v.distinct;
  leased = λ q m l. ground (arith, v.leased q);
  held = λ t q e. ground (arith, v.held t q);
  offered = λ c q e. ground (arith, v.offered c q);
}

pub Step-IsValid : {ps qs : Plans} → Step ps qs → IsValid ps → IsValid qs
Step-IsValid {ps} (pushes p x fresh free) v =
    push-IsValid (allocate p x ps) (allocate-IsValid p x ps fresh v) p (unfold allocate in fresh)
      (unfold allocate in ground arith)
Step-IsValid {ps} (leases token nonempty unused) v = lease_next-IsValid ps token v nonempty unused
Step-IsValid {ps} (unleases token) v = unlease-IsValid ps v token
Step-IsValid {ps} (finishes token) v = finish-IsValid ps v token

-- In every state that pushes of new plans, leases under unused tokens, returns and completions
-- reach from the empty queue, the queue and its two indexes agree.
pub Reach-IsValid : {heap : ℕ → Plan} {ps : Plans} → Reach heap ps → IsValid ps
Reach-IsValid {heap} start = new_plans-IsValid heap
Reach-IsValid (next r s) = Step-IsValid s (Reach-IsValid r)

-- In every reachable state two tokens under which the same plan is found are the same token, and
-- the plan that a token leases is still queued: no plan is handed to two workers.
pub lease_exclusive :
    {heap : ℕ → Plan} {ps : Plans} (s t : Text) (p : ℕ)
    → Reach heap ps
    → lookup s ps.leases_index ≡ some p
    → lookup t ps.leases_index ≡ some p
    → (s ≡ t) × (contains ps.queue p ≡ true)
lease_exclusive s t p r e f =
    let v = Reach-IsValid r in (sym (v.held s p e).1 ∙ (v.held t p f).1, (v.held s p e).0)
