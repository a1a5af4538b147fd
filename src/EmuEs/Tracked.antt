-- ===== src/EmuEs/Tracked.antt =====
-- The stub of the channel in EmuES.cpp: what is known of it, and what the steps of a request keep.
use ctgpr_msc.Base.{
  ℕ, zero, suc, ◌+◌, ◌≤◌, ◌≡◌, refl, ap, ◌⊎◌, inl, inr, arith, List, Bool, Bool-cases, true, false,
  ◌==◌, if◌then◌else◌, Option, none, some,
}
use ctgpr_msc.Base.Int.{ℤ, pos, negsuc, is_neg, eq_ℤ, u32_of}
use ctgpr_msc.Base.Outcome.{Outcome, done, fault, stuck, ◌>>=◌, ◌>>◌, assert, Holds, assert-Holds}
use ctgpr_msc.EmuEs.{
  Es, EsReply, Vec, find_stub, is_stub, note_stub, refuse, note_cfd, vec_at, note_ticket, word_be32,
}

-- A conditional has what both of its branches have.
either_way : {A : Type 0} (P : A → Type 0) (b : Bool) (x y : A) → P x → P y → P (if b then x else y)
either_way P true x y h k = h
either_way P false x y h k = k

-- A search that finds something finds it no earlier than where it begins.
abbrev IsFrom : ℕ → Option ℕ → Type 0
IsFrom i none = Unit
IsFrom i (some j) = i ≤ j

pub find_stub-IsFrom : (n i k : ℕ) (tmd : List ℕ) → k ≤ i → IsFrom k (find_stub n i tmd)
unfolding find_stub
find_stub-IsFrom zero i k tmd h = tt
find_stub-IsFrom (suc n) i k tmd h =
    either_way (IsFrom k) (is_stub tmd i) (some i) (find_stub n (i + 1) tmd) h
      (find_stub-IsFrom n (i + 1) k tmd (omega arith))

-- The index of the stub is that of a content after the banner.
abbrev IsFound : {W : Type 0} → Es W → Type 0
IsFound s = (i : ℕ) × (s.stub_index ≡ pos i) × (1 ≤ i)

-- A descriptor of the stub that is open.
abbrev IsOpen : {W : Type 0} → Es W → Type 0
IsOpen s = IsFound s × (is_neg s.stub_cfd ≡ false)

-- The content of the stub is unknown, or its index is known; and its descriptor is unknown, or it is
-- open and the index is known.
abbrev pub IsTracked : {W : Type 0} → Es W → Type 0
IsTracked s = ((s.stub_cid ≡ negsuc 0) ⊎ IsFound s) × ((s.stub_cfd ≡ negsuc 0) ⊎ IsOpen s)

module _ {W : Type 0} where
  unfoldable pub IsKept : EsReply W → Type 0
  IsKept r = IsTracked r.state

  unfoldable pub Tracks : Outcome (EsReply W) → Type 0
  Tracks o = Holds IsKept o

  -- The two branches of a test, of an outcome and of an answer.
  pub test-Tracks :
      (b : Bool) (x y : Outcome (EsReply W)) → Tracks x → Tracks y → Tracks (if b then x else y)
  test-Tracks = either_way Tracks

  test-IsKept : (b : Bool) (x y : EsReply W) → IsKept x → IsKept y → IsKept (if b then x else y)
  test-IsKept = either_way IsKept

  pub done-Tracks : (r : EsReply W) → IsKept r → Tracks (done r)
  unfolding Tracks
  done-Tracks r h = h

  pub assert-Tracks : (b : Bool) (o : Outcome (EsReply W)) → Tracks o → Tracks (assert b >> o)
  unfolding Tracks
  assert-Tracks b o h = assert-Holds IsKept b o h

  pub bind-Tracks :
      {A : Type 0} (m : Outcome A) (f : A → Outcome (EsReply W))
      → ((a : A) → Tracks (f a))
      → Tracks (m >>= f)
  unfolding Tracks
  bind-Tracks (done a) f h = h a
  bind-Tracks fault f h = tt
  bind-Tracks stuck f h = tt

  pub refuse-IsKept :
      (code : ℤ) (vecs : List Vec) (s : Es W) → IsTracked s → IsKept (refuse code vecs s)
  unfolding IsKept refuse
  refuse-IsKept code vecs s h = h

  pub refuse-Tracks :
      (code : ℤ) (vecs : List Vec) (s : Es W) → IsTracked s → Tracks (done (refuse code vecs s))
  refuse-Tracks code vecs s h = done-Tracks (refuse code vecs s) (refuse-IsKept code vecs s h)

  -- A guard, of an outcome and of an answer.
  pub guard-Tracks :
      (b : Bool) (code : ℤ) (vecs : List Vec) (s : Es W) (o : Outcome (EsReply W))
      → IsTracked s
      → Tracks o
      → Tracks (if b then done (refuse code vecs s) else o)
  guard-Tracks b code vecs s o h k =
      test-Tracks b (done (refuse code vecs s)) o (refuse-Tracks code vecs s h) k

  pub guard-IsKept :
      (b : Bool) (code : ℤ) (vecs : List Vec) (s : Es W) (r : EsReply W)
      → IsTracked s
      → IsKept r
      → IsKept (if b then refuse code vecs s else r)
  guard-IsKept b code vecs s r h k =
      test-IsKept b (refuse code vecs s) r (refuse-IsKept code vecs s h) k

  pub note_stub-IsTracked :
      (tmd : List ℕ) (stub : Option ℕ) (s : Es W)
      → IsFrom 1 stub
      → s.stub_cfd ≡ negsuc 0
      → IsTracked s
      → IsTracked (note_stub tmd stub s)
  unfolding note_stub
  note_stub-IsTracked tmd none s h closed kept = kept
  note_stub-IsTracked tmd (some i) s h closed kept = (inr (i, refl, h), inl closed)

  pub note_ticket-IsKept : (r : EsReply W) → IsKept r → IsKept (note_ticket r)
  unfolding IsKept note_ticket
  note_ticket-IsKept r h = h

  -- The descriptor is kept only for a content that was found.
  with_cfd-IsKept :
      (r : EsReply W)
      → IsKept r
      → eq_ℤ r.state.stub_cid (negsuc 0) ≡ false
      → is_neg r.ret ≡ false
      → IsKept (record r { state = record r.state { stub_cfd = r.ret } })
  unfolding IsKept
  with_cfd-IsKept r h known good = elim h.0 [
    | inl unknown ↦ absurd (cc (known, ap (λ c. eq_ℤ c (negsuc 0)) unknown))
    | inr found ↦ (inr found, inr (found, good))
  ]

  with_ret-IsKept : (r : EsReply W) (code : ℤ) → IsKept r → IsKept (record r { ret = code })
  unfolding IsKept
  with_ret-IsKept r code h = h

  pub note_cfd-IsKept : (r : EsReply W) → IsKept r → IsKept (note_cfd r)
  unfolding note_cfd
  note_cfd-IsKept r h = elim (Bool-cases (eq_ℤ r.state.stub_cid (negsuc 0))) [
    | inl unknown ↦ rw unknown h
    | inr known ↦ rw known (
        test-IsKept (word_be32 (vec_at r.vecs 1).bytes == u32_of r.state.stub_cid) _ _
          (test-IsKept (word_be32 (vec_at r.vecs 1).bytes == 0) _ _ (with_ret-IsKept r _ h)
            (elim (Bool-cases (is_neg r.ret)) [
              | inl bad ↦ rw bad h
              | inr good ↦ rw good (with_cfd-IsKept r h known good)
            ]))
          h)
  ]
