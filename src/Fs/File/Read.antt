-- ===== src/Fs/File/Read.antt =====
-- fs_file_read answers the bytes of the file's contents.
use avr_kernel.Base.{
  ℕ, zero, suc, ◌+◌, ◌-◌, ◌^◌, ◌<◌, ◌≤◌, ◌≡◌, ◌≢◌, ◌⊎◌, refl, sym, ◌∙◌, arith, Bool-cases, inl, inr,
  true, false, ◌&&◌, Option, some, List, [], ◌∷◌, if◌then◌else◌, leb, ltb, ◌==◌, add32, get32,
  bit_and, length,
}
use avr_kernel.Fs.Bitmap.{Context}
use avr_kernel.Fs.Device.{fs_null, read_struct}
use avr_kernel.Fs.File.{
  file_extent_size, file_header_size, mode_read, FileHandle, extent_read, Progress, read_extent,
  read_loop, struct_is_valid, fs_file_get_size, read_range, fs_file_read,
}
use avr_kernel.Fs.File.Handle.{
  IsFile, file_size, header_word, header-Holds, fs_file_get_size-Holds, struct_is_valid-Holds,
}
use avr_kernel.Fs.File.Chain.{
  IsChain, chain_size, file_byte, Holds, extent_read-Holds, chunk_of, IsStep, read_extent-IsStep,
}

-- What the loop leaves at its end: nothing remains, and the buffer has the bytes.
record IsDone (chain : List (ℕ × ℕ)) (m : ℕ → ℕ) (p : Progress) (r : Progress × Context)
    : Type 0 where
  holds : Holds m r.1
  remaining : r.0.remaining ≡ 0
  destination :
      (j : ℕ)
      → r.0.destination j ≡ (
          if leb p.cursor j && ltb j (p.cursor + p.remaining)
          then file_byte m chain (p.read_offset - p.boundary + (j - p.cursor))
          else p.destination j)

-- What the loop needs at a point: the rest of the range lies in the rest of the chain.
record IsAhead (chain : List (ℕ × ℕ)) (p : Progress) : Type 0 where
  begun : (p.boundary ≤ p.read_offset) ⊎ (p.remaining ≡ 0)
  small : p.boundary + chain_size chain < 2 ^ 32
  fits : p.read_offset + p.remaining ≤ p.boundary + chain_size chain

finished-IsDone :
    (chain : List (ℕ × ℕ)) (m : ℕ → ℕ) (p : Progress) (c : Context)
    → Holds m c
    → p.remaining ≡ 0
    → IsDone chain m p (p, c)
finished-IsDone chain m p c v e = record {
  holds = v;
  remaining = e;
  destination = λ j. ground (arith, e);
}

step-IsAhead :
    (e n : ℕ) (rest : List (ℕ × ℕ)) (m : ℕ → ℕ) (p : Progress) (r : Progress × Context)
    → IsAhead ((e, n) ∷ rest) p
    → 0 < p.remaining
    → IsStep e n m p r
    → IsAhead rest r.0
step-IsAhead e n rest m p r a more s = record {
  begun = ground (arith, a.begun, s.boundary, s.read_offset, s.remaining, more);
  small = omega (arith, a.small, s.boundary);
  fits = ground (arith, a.fits, a.begun, s.boundary, s.read_offset, s.remaining, more);
}

-- The three ways in which an extent meets the range that is left.
abbrev IsCut : (n start remaining chunk : ℕ) → Type 0
IsCut n start remaining chunk =
    ((chunk ≡ remaining) × (start + chunk ≤ n))
    ⊎ ((start + chunk ≡ n) × (chunk ≤ remaining))
    ⊎ ((chunk ≡ 0) × (n ≤ start))

chunk_of-IsCut :
    (n : ℕ) (p : Progress)
    → p.boundary ≤ p.read_offset
    → IsCut n (p.read_offset - p.boundary) p.remaining (chunk_of n p)
chunk_of-IsCut n p le = elim (Bool-cases (ltb p.read_offset (p.boundary + n))) [
  | inl t ↦ elim (Bool-cases (ltb (n - (p.read_offset - p.boundary)) p.remaining)) [
    | inl u ↦ rw (t, u) (inr (inl (ground (arith, t, u, le), ground (arith, u))))
    | inr u ↦ rw (t, u) (inl (refl, ground (arith, t, u, le)))
  ]
  | inr t ↦ rw t (inr (inr (refl, ground (arith, t, le))))
]

cut_meets :
    (n : ℕ) (p : Progress)
    → p.boundary ≤ p.read_offset
    → (p.read_offset - p.boundary + chunk_of n p
        ≡ n + (p.read_offset + chunk_of n p - (p.boundary + n)))
      ⊎ (p.remaining ≡ chunk_of n p)
cut_meets n p le = elim (chunk_of-IsCut n p le) [
  | inl (e, _) ↦ inr (sym e)
  | inr (inl (e, _)) ↦ inl (omega (arith, le, e))
  | inr (inr (e, at)) ↦ inl (omega (arith, le, e, at))
]

-- The bytes of an extent, and then those of the rest, are the bytes of both.
join_bytes :
    (cursor start n remaining chunk rest_start j byte : ℕ) (here there : ℕ → ℕ)
    → IsCut n start remaining chunk
    → start + chunk ≡ n + rest_start ⊎ remaining ≡ chunk
    → (if leb (cursor + chunk) j && ltb j (cursor + chunk + (remaining - chunk))
        then there (rest_start + (j - (cursor + chunk)))
        else if leb cursor j && ltb j (cursor + chunk)
        then here (start + (j - cursor))
        else byte)
      ≡ (if leb cursor j && ltb j (cursor + remaining)
          then (if ltb (start + (j - cursor)) n
              then here (start + (j - cursor))
              else there (start + (j - cursor) - n))
          else byte)
join_bytes cursor start n remaining chunk rest_start j byte here there (inl (e, le)) s =
    ground (arith, e, le)
join_bytes cursor start n remaining chunk rest_start j byte here there (inr (inl (e, le))) s =
    ground (arith, e, le, s)
join_bytes cursor start n remaining chunk rest_start j byte here there (inr (inr (e, le))) s =
    ground (arith, e, le, s)

step-IsDone :
    (e n : ℕ) (rest : List (ℕ × ℕ)) (m : ℕ → ℕ) (p : Progress) (r q : Progress × Context)
    → IsAhead ((e, n) ∷ rest) p
    → 0 < p.remaining
    → IsStep e n m p r
    → IsDone rest m r.0 q
    → IsDone ((e, n) ∷ rest) m p q
step-IsDone e n rest m p r q a more s d = record {
  holds = d.holds;
  remaining = d.remaining;
  destination = λ j. d.destination j ∙ joined j;
}
  where
    le : p.boundary ≤ p.read_offset
    le = omega (arith, a.begun, more)

    joined :
        (j : ℕ)
        → (if leb r.0.cursor j && ltb j (r.0.cursor + r.0.remaining)
            then file_byte m rest (r.0.read_offset - r.0.boundary + (j - r.0.cursor))
            else r.0.destination j)
          ≡ (if leb p.cursor j && ltb j (p.cursor + p.remaining)
              then file_byte m ((e, n) ∷ rest) (p.read_offset - p.boundary + (j - p.cursor))
              else p.destination j)
    joined j =
        rw (s.cursor, s.remaining, s.read_offset, s.boundary, s.destination j)
          (join_bytes p.cursor (p.read_offset - p.boundary) n p.remaining (chunk_of n p)
            (p.read_offset + chunk_of n p - (p.boundary + n)) j (p.destination j)
            (λ k. m (e + file_extent_size + k)) (file_byte m rest) (chunk_of-IsCut n p le)
            (cut_meets n p le))

-- The result of the loop.
record IsWalked (chain : List (ℕ × ℕ)) (m : ℕ → ℕ) (p : Progress)
    (found : Option (Progress × Context)) : Type 0 where
  end : Progress × Context
  answer : found ≡ some end
  done : IsDone chain m p end

-- The loop comes to its end in more rounds than there are extents, with the bytes of the range.
read_loop-IsWalked :
    (chain : List (ℕ × ℕ)) (rounds current : ℕ) (m : ℕ → ℕ) (p : Progress) (c : Context)
    → length chain < rounds
    → Holds m c
    → IsChain m current chain
    → IsAhead chain p
    → IsWalked chain m p (read_loop rounds current p c)
unfolding read_loop
read_loop-IsWalked chain zero current m p c more v k a = absurd (omega arith)
read_loop-IsWalked [] (suc rounds) current m p c more v k a =
    let stop : (current == fs_null) ≡ true = ground (arith, k) in
    rw stop (record {
      end = (p, c);
      answer = refl;
      done = finished-IsDone [] m p c v (ground (arith, a.begun, a.fits));
    })
read_loop-IsWalked ((e, n) ∷ rest) (suc rounds) current m p c more v
      (at, low, high, room, len, next) a =
    let valid : (e == fs_null) ≡ false = ground (arith, high) in
    elim (Bool-cases (p.remaining == 0)) [
      | inl stop ↦
          rw (at, valid, stop)
            (record {
              end = (p, c);
              answer = refl;
              done = finished-IsDone ((e, n) ∷ rest) m p c v (ground (arith, stop));
            })
      | inr go ↦
          let (extent, answer, holds, link, size) = extent_read-Holds e n m c v low high room in
          let c' = (extent_read e c).1 in
          let left : 0 < p.remaining = ground (arith, go) in
          let step =
            read_extent-IsStep e n m p c' holds high (omega (arith, a.begun, left))
              (omega (arith, a.small)) (omega (arith, a.small, a.fits)) in
          let (p', c'') = read_extent e n p c' in
          let walked =
            read_loop-IsWalked rest rounds (get32 m e) m p' c'' (omega (arith, more)) step.holds
              next (step-IsAhead e n rest m p (read_extent e n p c') a left step) in
          let length_of : get32 extent 8 ≡ n = size ∙ len in
          rw (at, valid, go, answer, length_of, link, at)
            (record {
              end = walked.end;
              answer = walked.answer;
              done =
                  step-IsDone e n rest m p (read_extent e n p c') walked.end a left step
                    walked.done;
            })
    ]

-- How many bytes a read of `size` bytes at `position` answers.
abbrev pub available : (file_size position size : ℕ) → ℕ
available file_size position size =
    if ltb file_size (position + size) then file_size - position else size

-- The answer of fs_file_read: the bytes of the contents from the position on.
pub record IsReadOut (m : ℕ → ℕ) (chain : List (ℕ × ℕ)) (n : ℕ) (destination : ℕ → ℕ)
    (f : FileHandle) (found : Option (ℕ × FileHandle × (ℕ → ℕ) × Context)) : Type 0 where
  pub handle : FileHandle
  pub buffer : ℕ → ℕ
  pub context : Context
  pub answer : found ≡ some (n, handle, buffer, context)
  pub position : handle.position ≡ f.position + n
  pub bytes :
      (j : ℕ) → buffer j ≡ (if ltb j n then file_byte m chain (f.position + j) else destination j)
  pub holds : Holds m context

taken : (n remaining : ℕ) → remaining ≡ 0 → n - remaining ≡ n
taken n remaining e = omega (arith, e)

module _ (m : ℕ → ℕ) (chain : List (ℕ × ℕ)) (f : FileHandle) (file : IsFile m f.address chain) where
  read_range-IsReadOut :
      (rounds n : ℕ) (destination : ℕ → ℕ) (c : Context)
      → length chain < rounds
      → f.position + n ≤ file_size m f.address
      → Holds m c
      → IsReadOut m chain n destination f (read_range rounds n destination f c)
  unfolding read_range
  read_range-IsReadOut rounds n destination c more inside v =
      let start : Progress = record {
        read_offset = f.position;
        cursor = 0;
        remaining = n;
        boundary = 0;
        destination = destination;
      } in
      let ahead : IsAhead chain start = record {
        begun = inl (omega arith);
        small = omega (arith, file.small);
        fits = omega (arith, file.covered, inside);
      } in
      let w =
        read_loop-IsWalked chain rounds (get32 m (f.address + 36)) m start
          (read_struct file_header_size f.address c).1 more
          (header-Holds m f.address chain file c v) file.chained ahead in
      rw (header_word m f.address chain file 36 c (omega arith) v, w.answer, read_range)
        (record {
          handle = record f { position = add32 f.position (n - w.end.0.remaining) };
          buffer = w.end.0.destination;
          context = w.end.1;
          answer = rw (taken n w.end.0.remaining w.done.remaining) refl;
          position = omega (arith, w.done.remaining, inside, file.covered, file.small);
          bytes = λ j. ground (arith, w.done.destination j);
          holds = w.done.holds;
        })

  -- fs_file_read of `size` bytes from an open, readable handle of a regular file, on a drive that
  -- never fails, in more rounds than the file has extents, when the position and `size` together
  -- stay below 2^32. The file's header and its extents are allocated and end below 2^32, and the
  -- extents hold the file's size, and less than 2^32 bytes. Then it answers the bytes of the
  -- contents from the position on, as many as were asked for but none behind the file's size, in
  -- the first places of the buffer, leaves the rest of the buffer alone, moves the position on by
  -- as many, and changes nothing that the disk holds.
  pub fs_file_read-IsReadOut :
      (rounds size : ℕ) (destination : ℕ → ℕ) (c : Context)
      → length chain < rounds
      → f.is_open ≡ true
      → bit_and f.mode mode_read ≢ 0
      → f.position + size < 2 ^ 32
      → Holds m c
      → IsReadOut m chain
          (available (file_size m f.address) f.position size)
          destination
          f
          (fs_file_read rounds size destination f c)
  unfolding fs_file_read
  fs_file_read-IsReadOut rounds size destination c more open_now readable fits v =
      let (valid, h1) = struct_is_valid-Holds m f.address chain file f c open_now refl v in
      let c1 = (struct_is_valid f c).1 in
      let (total, h2) = fs_file_get_size-Holds m f.address chain file c1 h1 in
      let c2 = (fs_file_get_size f.address c1).1 in
      let mode : (bit_and f.mode mode_read == 0) ≡ false = ground (arith, readable) in
      let sum : add32 f.position size ≡ f.position + size = omega (arith, fits) in
      elim (Bool-cases (size == 0)) [
        | inl none_wanted ↦
            let nothing : available (file_size m f.address) f.position size ≡ 0 =
              ground (arith, none_wanted) in
            rw (valid, mode, none_wanted)
              (record {
                handle = f;
                buffer = destination;
                context = c1;
                answer = rw nothing refl;
                position = ground (arith, none_wanted);
                bytes = λ j. ground (arith, none_wanted);
                holds = h1;
              })
        | inr some_wanted ↦ elim (Bool-cases (leb (file_size m f.address) f.position)) [
          | inl past ↦
              let past_end : available (file_size m f.address) f.position size ≡ 0 =
                ground (arith, past, some_wanted) in
              rw (valid, mode, some_wanted, total, past)
                (record {
                  handle = f;
                  buffer = destination;
                  context = c2;
                  answer = rw past_end refl;
                  position = ground (arith, past, some_wanted);
                  bytes = λ j. ground (arith, past, some_wanted);
                  holds = h2;
                })
          | inr before ↦
              let inside : f.position + available (file_size m f.address) f.position size
                  ≤ file_size m f.address =
                ground (arith, before) in
              rw (valid, mode, some_wanted, total, before, sum)
                (read_range-IsReadOut rounds (available (file_size m f.address) f.position size)
                  destination (fs_file_get_size f.address c1).1 more inside h2)
        ]
      ]
