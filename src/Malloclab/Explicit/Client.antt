-- ===== src/Malloclab/Explicit/Client.antt =====
-- The blocks that a program has in use from malloclab/mm.c.
use git_sty.Base.{
  ℕ, ◌+◌, ◌-◌, ◌%◌, ◌≤◌, ◌<◌, ◌≡◌, ◌≢◌, ◌⊎◌, inl, inr, refl, none, some, List, [], ◌==◌, ltb, true,
  false, Bool-cases, arith,
}
use git_sty.Malloclab.Memlib.{mem_sbrk}
use git_sty.Malloclab.Memlib.Bounds.{InBounds}
use git_sty.Malloclab.FirstFit.{Words, hdrp}
use git_sty.Malloclab.FirstFit.Chain.{Block}
use git_sty.Malloclab.FirstFit.Live.{Live, update}
use git_sty.Malloclab.FirstFit.Safe.{not_live}
use git_sty.Malloclab.FreeList.{next_ptr, prev_ptr}
use git_sty.Malloclab.FreeList.Chained.{Chained, Pointers, Distinct, last_or}
use git_sty.Malloclab.Explicit.{
  State, with_list, with_words, Outcome, returns, mm_init, mm_malloc, mm_free,
}
use git_sty.Malloclab.Explicit
use git_sty.Malloclab.Explicit.Blocks.{Map, enter, Blocks-frame}
use git_sty.Malloclab.Explicit.Listed.{AllFree, Listed, other-NotAmong, Holds-frame}
use git_sty.Malloclab.Explicit.Heaped.{Heaped, with_list-Heaped, Granted}

-- A block of the map serves a request of `size` bytes.
pub record Serves (m : Map) (q size : ℕ) : Type 0 where
  pub bytes : ℕ
  pub block : m q ≡ some (record { size = bytes; alloc = 1 })
  pub payload : size + 8 ≤ bytes

-- The heap is in order, from `lo` on, and serves what is in use.
pub record Sound (lo : ℕ) (s : State) (live : Live) : Type 0 where
  pub blocks : Map
  pub free : List ℕ
  pub heaped : Heaped s lo blocks free
  pub serving : (q size : ℕ) → live q ≡ some size → Serves blocks q size

-- A heap before `mm_init`.
pub record CanStart (s : State) : Type 0 where
  pub bounds : InBounds s.mem
  pub small : s.mem.max_addr < 4294967296
  pub room : s.mem.brk + 16 ≤ s.mem.max_addr
  pub above : 0 < s.mem.brk
  pub aligned : s.mem.brk % 8 ≡ 0

abbrev pub first_block : State → ℕ
first_block s = s.mem.brk + 16

pub mm_init-Sound :
    (s : State)
    → CanStart s
    → ((mm_init s).0 ≡ true) × Sound (first_block s) ((mm_init s).1) (λ q. none)
unfolding mm_init Explicit.after_sbrk mem_sbrk AllFree Chained Pointers Distinct last_or
mm_init-Sound s c =
    let full : ltb s.mem.max_addr (s.mem.brk + 16) ≡ false = ground (arith, c.room) in
    rw full (
      refl,
      record {
        blocks = λ q. none;
        free = [];
        heaped = record {
          listed = record {
            blocks = record {
              tagged = λ p b e. absurd (ground arith);
              apart = λ p b e q d f n. absurd (ground arith);
            };
            holds = record { root = refl; last = refl; chained = tt; pointers = tt; distinct = tt };
            free = tt;
          };
          bounds = record { low = omega (arith, c.bounds.low); high = omega (arith, c.room) };
          small = c.small;
          top = omega (arith, c.aligned);
          above = omega arith;
          low = omega arith;
          start = omega (arith, c.bounds.low);
        };
        serving = λ q t e. absurd (ground arith);
      },
    )

pub allocated-Sound :
    (lo asize q size : ℕ) (s s' : State) (live : Live) (k : Sound lo s live)
    → size + 8 ≤ asize
    → Granted asize q lo k.blocks s s'
    → (live q ≡ none) × Sound lo s' (update q (some size) live)
allocated-Sound lo asize q size s s' live k l g = (
  not_live live q (live q) refl (λ t e.
      let o = k.serving q t e in
      omega (arith, g.fresh (record { size = o.bytes; alloc = 1 }) o.block)),
  record {
    blocks = g.blocks;
    free = g.free;
    heaped = g.heaped;
    serving = λ r t e. elim (Bool-cases (r == q)) [
      | inl d ↦ record { bytes = asize; block = ground (arith, g.own); payload = ground (arith, l) }
      | inr d ↦
          let o = k.serving r t (ground arith) in
          record {
            bytes = o.bytes;
            block = g.keeps r (record { size = o.bytes; alloc = 1 }) o.block refl;
            payload = o.payload;
          }
    ];
  },
)

pub freed-Sound :
    (lo q size : ℕ) (s s' : State) (live : Live) (fs : List ℕ) (k : Sound lo s live)
    → Heaped s' lo (enter q size 0 k.blocks) fs
    → Sound lo s' (update q none live)
freed-Sound lo q size s s' live fs k h = record {
  blocks = enter q size 0 k.blocks;
  free = fs;
  heaped = h;
  serving = λ r t e. elim (Bool-cases (r == q)) [
    | inl d ↦ absurd (ground arith)
    | inr d ↦
        let o = k.serving r t (ground arith) in
        record { bytes = o.bytes; block = rw d o.block; payload = o.payload }
  ];
}

module _ (lo : ℕ) (s : State) (live : Live) (k : Sound lo s live) where
  -- A block in use begins on a multiple of 8 bytes and ends, with 8 more bytes, below the break.
  pub Sound_inside :
      (q size : ℕ) → live q ≡ some size → (q % 8 ≡ 0) × ((lo ≤ q) × (q + size + 8 ≤ s.mem.brk))
  Sound_inside q size e =
      let o = k.serving q size e in
      let t = k.heaped.listed.blocks.tagged q (record { size = o.bytes; alloc = 1 }) o.block in
      (t.aligned, (t.low, omega (arith, t.high, o.payload)))

  pub Sound_apart : (q r a b : ℕ) → live q ≡ some a → live r ≡ some b → q < r → q + a + 8 ≤ r
  Sound_apart q r a b e f l =
      let o = k.serving q a e in
      let u = k.serving r b f in
      let x =
        k.heaped.listed.blocks.apart q (record { size = o.bytes; alloc = 1 }) o.block r
          (record { size = u.bytes; alloc = 1 }) u.block (λ v. omega (arith, v, l)) in
      ground (arith, x, o.payload, l)

  -- The tags of the blocks lie outside the bytes that were asked for.
  tags_outside :
      (q size : ℕ)
      → live q ≡ some size
      → (p : ℕ) (b : Block) → k.blocks p ≡ some b
      → ((hdrp p < q) ⊎ (q + size ≤ hdrp p))
        × (((p + b.size) - 8 < q) ⊎ (q + size ≤ (p + b.size) - 8))
  tags_outside q size e p b g =
      let o = k.serving q size e in
      let c : Block = record { size = o.bytes; alloc = 1 } in
      let h = k.heaped.listed.blocks in
      let t = h.tagged q c o.block in
      let u = h.tagged p b g in
      elim (Bool-cases (p == q)) [
        | inl d ↦
            let v : p ≡ q = ground arith in
            let y : b.size ≡ o.bytes = ground (arith, o.block, g) in
            (inl (omega (arith, v, t.low, k.heaped.low)), inr (omega (arith, v, y, o.payload)))
        | inr d ↦
            let v : p ≢ q = ground arith in
            let x = h.apart q c o.block p b g v in
            (
              ground (arith, x, o.payload, u.low, u.least, k.heaped.low),
              ground (arith, x, o.payload, u.low, u.least, k.heaped.low),
            )
      ]

  pub written-Listed :
      (q size : ℕ) (w : Words)
      → live q ≡ some size
      → ((r : ℕ) → (r < q) ⊎ (q + size ≤ r) → w r ≡ s.list.words r)
      → Listed (with_words w s.list) lo s.mem.brk k.blocks k.free
  written-Listed q size w e f =
      let o = k.serving q size e in
      let c : Block = record { size = o.bytes; alloc = 1 } in
      let h = k.heaped.listed in
      let t = h.blocks.tagged q c o.block in
      record {
        blocks =
            Blocks-frame s.list.words w lo s.mem.brk s.mem.brk k.blocks (omega arith)
              (λ p b g.
                let (x, y) = tags_outside q size e p b g in (f (hdrp p) x, f ((p + b.size) - 8) y))
              h.blocks;
        holds =
            Holds-frame s.list w k.blocks q k.free
              (λ p b g d.
                let x = h.blocks.apart q c o.block p b g d in
                let u = h.blocks.tagged p b g in
                (
                  f (next_ptr p) (ground (arith, x, o.payload, u.low, u.least, k.heaped.low)),
                  f (prev_ptr p) (ground (arith, x, o.payload, u.low, u.least, k.heaped.low)),
                ))
              (other-NotAmong k.blocks q k.free (λ p g v. ground (arith, g.1, v, o.block)) h.free)
              h.free h.holds;
        free = h.free;
      }

  pub written-Sound :
      (q size : ℕ) (w : Words)
      → live q ≡ some size
      → ((r : ℕ) → (r < q) ⊎ (q + size ≤ r) → w r ≡ s.list.words r)
      → Sound lo (with_list (with_words w s.list) s) live
  written-Sound q size w e f = record {
    blocks = k.blocks;
    free = k.free;
    heaped =
        with_list-Heaped s lo k.blocks k.blocks k.free k.free (with_words w s.list) k.heaped
          (written-Listed q size w e f);
    serving = k.serving;
  }
