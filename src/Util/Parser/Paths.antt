-- ===== src/Util/Parser/Paths.antt =====
-- parse_get_filename and parse_get_parent_path: the parts of a path before and after its last '/'.
use avr_kernel.Base.{
  ℕ, zero, suc, ◌+◌, ◌-◌, ◌<◌, ◌≤◌, ◌≡◌, refl, sym, ap, ◌∙◌, arith, ◌⊎◌, inl, inr, true, false,
  some, List, [], ◌∷◌, ◌++◌, length, length-append, length-take, take, ◌==◌, ◌!=◌, if◌then◌else◌,
  leb, upd,
}
use avr_kernel.Util.Text.{IsText, Letters, IsText-Letters, IsText-front, IsText-drop, Letters-take}
use avr_kernel.Util.Strings.{strrchr}
use avr_kernel.Util.Strings.Search.{Without, strrchr-Without, strrchr-last}
use avr_kernel.Util.Copy.{Bytes, append_within, copy_up, memcpy}
use avr_kernel.Util.Copy.Append.{Apart, IsPut, terminated-IsPut, append_within-copy_up}
use avr_kernel.Util.Parser.{copy_name, parse_get_filename, parse_get_parent_path}

copy_name-append :
    (n buffer start : ℕ) (m : Bytes) → copy_name n buffer start m ≡ append_within n buffer start m
unfolding copy_name append_within
copy_name-append zero buffer start m = refl
copy_name-append (suc n) buffer start m =
    rw (copy_name-append n (buffer + 1) (start + 1) (upd m buffer (m start))) refl

copy_name-IsPut :
    (q : List ℕ) (n buffer start : ℕ) (m : Bytes)
    → IsText m start q
    → Apart buffer (n + 1) start (length q + 1)
    → IsPut buffer (take n q) m (copy_name n buffer start m)
copy_name-IsPut q n buffer start m h apart =
    let e =
      copy_name-append n buffer start m
      ∙ append_within-copy_up q n buffer start m h (ground (arith, apart)) in
    rw e (
      terminated-IsPut (take n q) buffer start m
        (Letters-take m start n q (IsText-Letters m start q h))
        (ground (arith, apart, length-take n q)))

-- The directory above what stands before the last slash: the root stays the root.
abbrev pub parent : List ℕ → List ℕ
parent [] = 47 ∷ []
parent (c ∷ p) = c ∷ p

-- The path splits at its last slash, or has none and stands in no directory.
abbrev pub IsSplit : (path directory name : List ℕ) → Type 0
IsSplit path directory name =
    (Without 47 path × (directory ≡ []) × (name ≡ path))
    ⊎ ((p : List ℕ) × (path ≡ p ++ (47 ∷ name)) × Without 47 name × (directory ≡ parent p))

-- parse_get_filename writes the name: for a zero-terminated path and a buffer of `buffer_size` bytes
-- apart from it, neither NULL, the size not 0, and more rounds than the path has characters, it ends;
-- the buffer then has as much of the part after the last '/' (of the whole path, when it has none) as
-- leaves room for the terminator, and nothing past that terminator is written.
pub parse_get_filename-name :
    (s dir name : List ℕ) (rounds path buffer size : ℕ) (m : Bytes)
    → IsText m path s
    → IsSplit s dir name
    → (0 < path) × (0 < buffer) × (0 < size)
    → length s < rounds
    → Apart buffer size path (length s + 1)
    → (m' : Bytes) × (parse_get_filename rounds path buffer size m ≡ some m')
      × IsPut buffer (take (size - 1) name) m m'
unfolding parse_get_filename
parse_get_filename-name s dir name rounds path buffer size m h split set lt apart =
    let b0 : (buffer == 0) ≡ false = ground (arith, set.1) in
    let b1 : (size == 0) ≡ false = ground (arith, set.2) in
    let b2 : (path == 0) ≡ false = ground (arith, set.0) in
    elim split [
      | inl (w, _, e) ↦
          let last = strrchr-Without 47 s rounds path m (omega arith, omega arith) h w lt in
          (
            copy_name (size - 1) buffer path m,
            rw (b0, b1, b2, last) refl,
            rw e (copy_name-IsPut s (size - 1) buffer path m h (ground (arith, apart, set.2))),
          )
      | inr (p, e, w, _) ↦
          let h' : IsText m path (p ++ (47 ∷ name)) = rw e at h in
          let tail = IsText-drop m path p (47 ∷ name) h' in
          let last =
            strrchr-last 47 p name rounds path m (omega arith, omega arith) h' w (rw e at lt) in
          let b3 : (path + length p != 0) ≡ true = ground (arith, set.0) in
          let len : length s ≡ length p + suc (length name) =
            ap length e ∙ length-append p (47 ∷ name) in
          (
            copy_name (size - 1) buffer (path + length p + 1) m,
            rw (b0, b1, b2, last, b3) refl,
            copy_name-IsPut name (size - 1) buffer (path + length p + 1) m tail.2
                (ground (arith, apart, set.2, len)),
          )
    ]

-- Where the last slash stands gives the length of the directory, whose letters begin the path.
parent_length :
    (s dir name : List ℕ) (rounds path : ℕ) (m : Bytes)
    → IsText m path s
    → IsSplit s dir name
    → 0 < path
    → length s < rounds
    → (last : ℕ) × (strrchr rounds path 47 m ≡ some last)
      × ((if last == 0 then 0 else if last == path then 1 else last - path) ≡ length dir)
      × Letters m path dir
      × (length dir ≤ length s)
parent_length s dir name rounds path m h (inl (w, e, _)) set lt = (
  0,
  strrchr-Without 47 s rounds path m (omega arith, omega arith) h w lt,
  ap length (sym e),
  rw e tt,
  rw e (omega arith),
)
parent_length s dir name rounds path m h (inr ([], e, w, d)) set lt =
    let h' : IsText m path (47 ∷ name) = rw e at h in
    (
      path + 0,
      strrchr-last 47 [] name rounds path m (omega arith, omega arith) h' w (rw e at lt),
      rw d (ground (arith, set)),
      rw d (h'.0, h'.1, tt),
      rw (d, e) (omega arith),
    )
parent_length s dir name rounds path m h (inr (c ∷ p, e, w, d)) set lt =
    let h' : IsText m path ((c ∷ p) ++ (47 ∷ name)) = rw e at h in
    (
      path + length (c ∷ p),
      strrchr-last 47 (c ∷ p) name rounds path m (omega arith, omega arith) h' w (rw e at lt),
      rw d (ground (arith, set)),
      rw d (IsText-front m path (c ∷ p) (47 ∷ name) h'),
      omega (arith, ap length e, length-append (c ∷ p) (47 ∷ name), ap length d),
    )

-- parse_get_parent_path writes the directory: for a zero-terminated path and a buffer of `buffer_size`
-- bytes apart from it, neither NULL, the size not 0, and more rounds than the path has characters, it
-- ends; the buffer then has the part before the last '/' ("/" itself for a file in the root, nothing
-- for a path without a slash), or as much of it as leaves room for the terminator, and nothing past
-- that terminator is written.
pub parse_get_parent_path-directory :
    (s dir name : List ℕ) (rounds path buffer size : ℕ) (m : Bytes)
    → IsText m path s
    → IsSplit s dir name
    → (0 < path) × (0 < buffer) × (0 < size)
    → length s < rounds
    → Apart buffer size path (length s + 1)
    → (m' : Bytes) × (parse_get_parent_path rounds path buffer size m ≡ some m')
      × IsPut buffer (take (size - 1) dir) m m'
unfolding parse_get_parent_path memcpy
parse_get_parent_path-directory s dir name rounds path buffer size m h split set lt apart =
    let b0 : (buffer == 0) ≡ false = ground (arith, set.1) in
    let b1 : (size == 0) ≡ false = ground (arith, set.2) in
    let b2 : (path == 0) ≡ false = ground (arith, set.0) in
    let (last, found, len, letters, short) =
      parent_length s dir name rounds path m h split set.0 lt in
    let u = take (size - 1) dir in
    let ended : ℕ → Bytes = λ k. upd (copy_up buffer path k m) (buffer + k) 0 in
    let cut : (if leb size (length dir) then size - 1 else length dir) ≡ length u =
      ground (arith, length-take (size - 1) dir, set.2) in
    (
      ended (length u),
      rw (b0, b1, b2, found, len) (ap (λ (k : ℕ). some (ended k)) cut),
      terminated-IsPut u buffer path m (Letters-take m path (size - 1) dir letters)
          (ground (arith, apart, short, length-take (size - 1) dir, set.2)),
    )
