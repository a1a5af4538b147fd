-- ===== src/Blob/Image.antt =====
-- `LaunchDOL` of Blob.cpp against the file it loads: where each byte of memory comes from.
use ctgpr_msc.Base.{
  ℕ, zero, suc, ◌+◌, ◌-◌, ◌≤◌, ◌≡◌, refl, ap, ◌∙◌, inl, inr, arith, List, ◌++◌, append-nil, Bool,
  Bool-cases, true, not, ◌&&◌, ltb, leb, ◌==◌, if◌then◌else◌, Option, Option-cases, none, some,
  take, drop, length, length-take, drop-length, get_or,
}
use ctgpr_msc.FatFs.{FatFs, IsReadable, slice, fr_ok}
use ctgpr_msc.Base.Memory.{Memory, store}
use ctgpr_msc.Blob.Launch.{
  Load, clear, physical, round_up_32, sect, sect_addr, sect_size, bss_addr, bss_size, section_count,
  load_section, load_sections, finish, launch_dol,
}

-- The bytes of a section in the file.
abbrev pub section_bytes : List ℕ → List ℕ → ℕ → List ℕ
section_bytes content dol i = slice content (sect dol i) (sect_size dol i)

-- Whether a section has an address.
unfoldable pub covers : List ℕ → List ℕ → ℕ → ℕ → Bool
covers content dol i a =
    not (sect_size dol i == 0)
    && (leb (physical (sect_addr dol i)) a
        && ltb a (physical (sect_addr dol i) + length (section_bytes content dol i)))

-- The byte of an address in the last of `n` sections, from section `i` on, that has it.
unfoldable pub section_byte : ℕ → ℕ → List ℕ → List ℕ → ℕ → Option ℕ
section_byte zero i content dol a = none
section_byte (suc n) i content dol a = elim (section_byte n (i + 1) content dol a) [
  | some b ↦ some b
  | none ↦
      if covers content dol i a
      then some (get_or (section_bytes content dol i) (a - physical (sect_addr dol i)) 0)
      else none
]

abbrev pub or_else : Option ℕ → ℕ → ℕ
or_else none d = d
or_else (some b) d = b

-- The state in which the loop begins.
abbrev started : {W F : Type 0} → List ℕ → F → Memory → W → Load W F
started dol f mem w = record {
  good = true;
  fil = f;
  memory = clear (physical (bss_addr dol)) (round_up_32 (bss_size dol)) mem;
  world = w;
}

-- The sections of an executable over memory whose BSS is cleared.
abbrev pub image : ℕ → List ℕ → List ℕ → Memory → Memory
image n content dol mem a =
    or_else (section_byte n 0 content dol a)
      (clear (physical (bss_addr dol)) (round_up_32 (bss_size dol)) mem a)

-- A library that answers every seek and every read with OK.
pub record NeverFails {W F : Type 0} (fs : FatFs W F) : Type 0 where
  pub seeks : (w : W) (f : F) (to : ℕ) → (fs.f_lseek w f to).ret ≡ fr_ok
  pub reads : (w : W) (f : F) (n : ℕ) → (fs.f_read w f n).ret ≡ fr_ok

module _ {W F : Type 0} (fs : FatFs W F) (Holds : W → F → List ℕ → ℕ → Type 0)
    (law : IsReadable fs Holds) (works : NeverFails fs) where
  -- A load that went well so far, of a file with some content.
  record IsLoading (content : List ℕ) (l : Load W F) : Type 0 where
    good : l.good ≡ true
    at : ℕ
    holds : Holds l.world l.fil content at

  load_section-IsLoading :
      (content dol : List ℕ) (i : ℕ) (l : Load W F)
      → IsLoading content l
      → IsLoading content (load_section fs dol i l)
        × ((load_section fs dol i l).memory
            ≡ store (physical (sect_addr dol i)) (section_bytes content dol i) l.memory)
  unfolding load_section
  load_section-IsLoading content dol i l h =
      let sought = fs.f_lseek l.world l.fil (sect dol i) in
      let r = fs.f_read sought.world sought.fil (sect_size dol i) in
      let there =
        law.seeks l.world l.fil content h.at (sect dol i) h.holds
          (works.seeks l.world l.fil (sect dol i)) in
      let got =
        law.reads sought.world sought.fil content (sect dol i) (sect_size dol i) there
          (works.reads sought.world sought.fil (sect_size dol i)) in
      rw (works.seeks l.world l.fil (sect dol i)) (
        record {
          good = rw (works.reads sought.world sought.fil (sect_size dol i)) refl;
          at = sect dol i + length (section_bytes content dol i);
          holds = got.1;
        },
        ap (λ bytes. store (physical (sect_addr dol i)) bytes l.memory) got.0,
      )

  -- Memory after section `i`.
  abbrev after_section : List ℕ → List ℕ → ℕ → Memory → Memory
  after_section content dol i mem a =
      if covers content dol i a
      then get_or (section_bytes content dol i) (a - physical (sect_addr dol i)) 0
      else mem a

  -- One round of the loop.
  IsRound : List ℕ → List ℕ → ℕ → Load W F → Load W F → Type 0
  IsRound content dol i l next =
      IsLoading content next × ((a : ℕ) → next.memory a ≡ after_section content dol i l.memory a)

  round_lem :
      (content dol : List ℕ) (i : ℕ) (l : Load W F)
      → IsLoading content l
      → IsRound content dol i l (if sect_size dol i == 0 then l else load_section fs dol i l)
  unfolding IsRound covers store
  round_lem content dol i l h = elim (Bool-cases (sect_size dol i == 0)) [
    | inl empty ↦ rw (empty) (h, λ a. refl)
    | inr some_bytes ↦
        let (loading, stored) = load_section-IsLoading content dol i l h in
        rw (some_bytes) (loading, λ a. ap (λ m. m a) stored)
  ]

  load_sections-round :
      (n i : ℕ) (dol : List ℕ) (l : Load W F)
      → (if sect_size dol i == 0 then l else load_section fs dol i l).good ≡ true
      → load_sections fs (suc n) i dol l
        ≡ load_sections fs n
            (i + 1)
            dol
            (if sect_size dol i == 0 then l else load_section fs dol i l)
  unfolding load_sections
  load_sections-round n i dol l good = rw (good, load_sections) refl

  section_byte-suc :
      (n i : ℕ) (content dol : List ℕ) (mem : Memory) (a : ℕ)
      → or_else (section_byte n (i + 1) content dol a) (after_section content dol i mem a)
        ≡ or_else (section_byte (suc n) i content dol a) (mem a)
  unfolding section_byte
  section_byte-suc n i content dol mem a =
      elim (Option-cases (section_byte n (i + 1) content dol a)) [
        | inr (b, later) ↦ rw (later, section_byte) refl
        | inl nothing ↦ elim (Bool-cases (covers content dol i a)) [
          | inl here ↦ rw (nothing, here, section_byte) refl
          | inr elsewhere ↦ rw (nothing, elsewhere, section_byte) refl
        ]
      ]

  load_sections_lem :
      (n i : ℕ) (content dol : List ℕ) (l : Load W F)
      → IsLoading content l
      → ((load_sections fs n i dol l).good ≡ true)
        × ((a : ℕ)
            → (load_sections fs n i dol l).memory a
              ≡ or_else (section_byte n i content dol a) (l.memory a))
  unfolding IsRound load_sections section_byte
  load_sections_lem zero i content dol l h = (h.good, λ a. refl)
  load_sections_lem (suc n) i content dol l h =
      let next = if sect_size dol i == 0 then l else load_section fs dol i l in
      let (loading, moved) = round_lem content dol i l h in
      let rest = load_sections_lem n (i + 1) content dol next loading in
      let e = load_sections-round n i dol l loading.good in
      (
        ap (λ r. r.good) e ∙ rest.0,
        λ a.
            ap (λ r. r.memory a) e
            ∙ rest.1 a
            ∙ ap (or_else (section_byte n (i + 1) content dol a)) (moved a)
            ∙ section_byte-suc n i content dol l.memory a,
      )

  -- The loop of `LaunchDOL`, with whatever header.
  sections_image :
      (n : ℕ) (content dol : List ℕ) (mem : Memory) (f : F) (w : W) (at : ℕ)
      → Holds w f content at
      → ((load_sections fs n 0 dol (started dol f mem w)).good ≡ true)
        × ((load_sections fs n 0 dol (started dol f mem w)).memory ≡ image n content dol mem)
  sections_image n content dol mem f w at h =
      let all =
        load_sections_lem n 0 content dol (started dol f mem w)
          (record { good = refl; at = at; holds = h }) in
      (all.0, λ i a. all.1 a i)

  -- From a library that never fails, `LaunchDOL` of a file that begins with the header of an
  -- executable succeeds. Above the entry point and the boot data, which it writes last, memory holds at
  -- each address the byte of the last section that covers it, of the first section only in stub
  -- mode; where none does, 0 in the BSS, and otherwise what it held.
  pub launch_dol_lem :
      (stub_mode : Bool) (stale content : List ℕ) (fil : F) (mem : Memory) (w : W)
      → Holds w fil content 0
      → 256 ≤ length content
      → length stale ≡ 256
      → sect (take 256 content) 0 ≡ 0x100
      → ((launch_dol fs stub_mode stale fil mem w).good ≡ true)
        × ((launch_dol fs stub_mode stale fil mem w).memory
            ≡ finish
                (take 256 content)
                (image (if stub_mode then 1 else section_count) content (take 256 content) mem))
  unfolding launch_dol
  launch_dol_lem stub_mode stale content fil mem w holds long full magic =
      let r = fs.f_read w fil 256 in
      let got = law.reads w fil content 0 256 holds (works.reads w fil 256) in
      let size : length (take 256 content) ≡ 256 = omega (arith, length-take 256 content) in
      let header : r.bytes ++ drop (length r.bytes) stale ≡ take 256 content =
        ap (λ xs. xs ++ drop (length xs) stale) got.0
        ∙ ap (λ ys. take 256 content ++ ys)
            (drop-length (length (take 256 content)) stale (omega arith))
        ∙ append-nil (take 256 content) in
      let known : (sect (take 256 content) 0 == 0x100) ≡ true = ground arith in
      let all =
        sections_image (if stub_mode then 1 else section_count) content (take 256 content) mem r.fil
          r.world _ got.1 in
      rw (header, works.reads w fil 256)
        (rw (known) (rw (all.0) (refl, ap (finish (take 256 content)) all.1)))
