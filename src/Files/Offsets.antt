-- ===== src/Files/Offsets.antt =====
-- os/file/file.c: the file offset. `filelseek`, and the loop of `filewrite` that writes an inode in
-- chunks. The inode's own write, `writei`, is an argument: it takes the inode, the offset and the
-- number of bytes asked for, and returns an `int`, the number written where it is not negative.
-- An `int` is its 32-bit pattern.
use u_core_smp.Base.{
  ◌≢◌, ap, ◌∙◌, refl, subst, ℕ, zero, suc, ◌+◌, ◌-◌, ◌*◌, ◌/◌, ◌%◌, ◌^◌, ◌≤◌, ◌<◌, ◌≡◌, arith,
  Option, none, some, min, ◌==◌, if◌then◌else◌, Bool, true, false, ◌&&◌, Bool-cases, inl, inr, ◌⊎◌,
  ltb,
}
use u_core_smp.Files.{File, FileType, fd_inode}

-- The types of an inode that matter here: T_FILE, or another.
pub data InodeType : Type 0 where
  t_file t_dir t_device : InodeType

abbrev is_inode : FileType → Bool
is_inode fd_inode = true
is_inode _ = false

abbrev is_file : InodeType → Bool
is_file t_file = true
is_file _ = false

-- `off` for a `whence`; an `off_t` is its 64-bit pattern, and the offset is a `uint`.
abbrev new_offset : ℕ → ℕ → ℕ → ℕ → Option ℕ
new_offset off size offset whence =
    if whence == 0
    then some (offset % 2 ^ 32)
    else if whence == 1
    then some ((off + offset) % 2 ^ 32)
    else if whence == 2
    then some ((size + offset) % 2 ^ 32)
    else none

-- -1 is `none`. `type` and `size` are the inode's.
unfoldable pub filelseek : InodeType → ℕ → File → ℕ → ℕ → Option ℕ × File
filelseek type size f offset whence =
    if is_inode f.kind && is_file type
    then elim (new_offset f.off size offset whence) [
      | none ↦ (none, f)
      | some off ↦ (some off, record f { off = off })
    ]
    else (none, f)

-- On an inode that is a file, seeking from the current position by `d`, then by -d, ends where it
-- began, whatever the 64-bit number `d` is.
pub filelseek-back :
    (type : InodeType) (size : ℕ) (f : File) (d : ℕ)
    → is_inode f.kind ≡ true
    → is_file type ≡ true
    → f.off < 2 ^ 32
    → d < 2 ^ 64
    → let away = (filelseek type size f d 1).1 in
      filelseek type size away ((2 ^ 64 - d) % 2 ^ 64) 1 ≡ (some f.off, f)
unfolding filelseek
filelseek-back type size f d k t h h' = ground (arith, k, t)

-- `max` in `filewrite`.
abbrev pub max_chunk : ℕ
max_chunk = (10 - 1 - 1 - 2) / 2 * 512

-- `int n1 = len - i`, cut to `max`.
abbrev pub chunk_size : ℕ → ℕ → ℕ
chunk_size len i =
    let n1 = (len + 2 ^ 64 - i) % 2 ^ 32 in
    if ltb n1 (2 ^ 31) && ltb max_chunk n1 then max_chunk else n1

-- An `int` as a `size_t`.
abbrev pub as_size : ℕ → ℕ
as_size i = if ltb i (2 ^ 31) then i else i + (2 ^ 64 - 2 ^ 32)

-- `f->off += r` where `r` is positive.
abbrev pub moved_by : ℕ → ℕ → ℕ
moved_by off r = if ltb r (2 ^ 31) then (off + r) % 2 ^ 32 else off

module _ {I : Type 0} (writei : I → ℕ → ℕ → ℕ × I) where
  -- The loop from index `i` and offset `off` on: the index and the offset where it stops, and the
  -- inode. `none` if the fuel runs out.
  unfoldable pub write_chunks : ℕ → I → ℕ → ℕ → ℕ → Option (ℕ × ℕ × I)
  write_chunks zero ip len i off = none
  write_chunks (suc fuel) ip len i off = elim (ltb (as_size i) len) [
    | false ↦ some (i, off, ip)
    | true ↦
        let n1 = chunk_size len i in
        let r = (writei ip off n1).0 in
        let off' = moved_by off r in
        elim (r == n1) [
          | true ↦ write_chunks fuel (writei ip off n1).1 len ((i + r) % 2 ^ 32) off'
          | false ↦ some (i, off', (writei ip off n1).1)
        ]
  ]

  -- `filewrite` of an inode: -1, `none`, unless the file is writable and all bytes were written.
  unfoldable pub filewrite_inode : ℕ → I → File → ℕ → Option (Option ℕ × File × I)
  filewrite_inode fuel ip f len = elim f.writable [
    | false ↦ some (none, f, ip)
    | true ↦ elim (write_chunks fuel ip len 0 f.off) [
      | none ↦ none
      | some (i, off, ip') ↦
          some ((if as_size i == len then some len else none), record f { off = off }, ip')
    ]
  ]

  -- The call of `writei` at the index `i` and the offset `off`, after which the inode is `ip'` and the
  -- file's offset `off'`, has not written what it was asked for.
  abbrev pub FallsShort : ℕ → ℕ → ℕ → ℕ → I → Type 0
  FallsShort len i off off' ip' =
      (ip : I) × ((writei ip off (min (len - i) max_chunk)).0 ≢ min (len - i) max_chunk)
      × (ip' ≡ (writei ip off (min (len - i) max_chunk)).1)
      × (off' ≡ moved_by off (writei ip off (min (len - i) max_chunk)).0)

  -- What a run of the loop leaves: all bytes written and the offset moved by as many, or an index
  -- before the end, where a call fell short.
  abbrev Stops : ℕ → ℕ → ℕ → ℕ × ℕ × I → Type 0
  Stops len i off (i', off', ip') =
      ((i' ≡ len) × (off' ≡ (off + (len - i)) % 2 ^ 32))
      ⊎ ((i ≤ i') × (i' < len) × FallsShort len i' ((off + (i' - i)) % 2 ^ 32) off' ip')

  Stops-later :
      (len i off r : ℕ) (out : ℕ × ℕ × I)
      → i + r ≤ len
      → Stops len (i + r) ((off + r) % 2 ^ 32) out
      → Stops len i off out
  Stops-later len i off r (i', off', ip) h (inl (e, o)) = inl (e, omega arith)
  Stops-later len i off r (i', off', ip) h (inr (le, lt, short)) = inr (
    omega arith,
    lt,
    subst (λ (o : ℕ). FallsShort len i' o off' ip)
        {x = ((off + r) % 2 ^ 32 + (i' - (i + r))) % 2 ^ 32} {y = (off + (i' - i)) % 2 ^ 32}
        (omega arith) short,
  )

  fell_short :
      (ip : I) (len i off n1 : ℕ)
      → n1 ≡ min (len - i) max_chunk
      → (writei ip off n1).0 ≢ n1
      → off < 2 ^ 32
      → FallsShort len i
          ((off + (i - i)) % 2 ^ 32)
          (moved_by off (writei ip off n1).0)
          (writei ip off n1).1
  fell_short ip len i off n1 size short o =
      subst
        (λ (n : ℕ).
          (jp : I) × ((writei jp ((off + (i - i)) % 2 ^ 32) n).0 ≢ n)
          × ((writei ip off n1).1 ≡ (writei jp ((off + (i - i)) % 2 ^ 32) n).1)
          × (moved_by off (writei ip off n1).0
              ≡ moved_by ((off + (i - i)) % 2 ^ 32) (writei jp ((off + (i - i)) % 2 ^ 32) n).0))
        size
        (subst
          (λ (o' : ℕ).
            (jp : I) × ((writei jp o' n1).0 ≢ n1)
            × ((writei ip off n1).1 ≡ (writei jp o' n1).1)
            × (moved_by off (writei ip off n1).0 ≡ moved_by o' (writei jp o' n1).0))
          {x = off} {y = (off + (i - i)) % 2 ^ 32} (omega (arith, o)) (ip, short, refl, refl))

  write_chunks-Stops :
      (fuel : ℕ) (ip : I) (len i off : ℕ)
      → i ≤ len
      → len < 2 ^ 31
      → off < 2 ^ 32
      → len - i < fuel
      → (out : ℕ × ℕ × I) × (write_chunks fuel ip len i off ≡ some out) × Stops len i off out
  unfolding write_chunks
  write_chunks-Stops zero ip len i off h small o f = absurd (omega arith)
  write_chunks-Stops (suc fuel) ip len i off h small o f = elim (Bool-cases (ltb i len)) [
    | inr done ↦
        let stop : ltb (as_size i) len ≡ false = ground arith in
        ((i, off, ip), rw (stop, write_chunks), inl (ground arith, ground arith))
    | inl more ↦
        let go : ltb (as_size i) len ≡ true = ground arith in
        let n1 = chunk_size len i in
        let size : n1 ≡ min (len - i) max_chunk = ground arith in
        let r = (writei ip off n1).0 in
        elim (Bool-cases (r == n1)) [
          | inr short ↦ (
            (i, moved_by off r, (writei ip off n1).1),
            rw (go, short, write_chunks),
            inr (
              omega arith,
              ground arith,
              fell_short ip len i off n1 size (ground (arith, short)) o,
            ),
          )
          | inl whole ↦
              let e : r ≡ min (len - i) max_chunk = ground (arith, whole, size) in
              let k = i + r in
              let next : (i + r) % 2 ^ 32 ≡ i + r = omega (arith, e) in
              let step : moved_by off r ≡ (off + r) % 2 ^ 32 = ground (arith, e) in
              let (out, run, stops) =
                write_chunks-Stops fuel (writei ip off n1).1 len (i + r) ((off + r) % 2 ^ 32)
                  (omega (arith, e)) small (omega arith) (ground (arith, e, more)) in
              (
                out,
                rw (go, whole, write_chunks)
                    (ap (λ (x : ℕ). write_chunks fuel (writei ip off n1).1 len x (moved_by off r))
                        next
                      ∙ ap (write_chunks fuel (writei ip off n1).1 len (i + r)) step
                      ∙ run),
                Stops-later len i off r out (omega (arith, e)) stops,
              )
        ]
  ]

  -- What `filewrite` makes of the end of the loop.
  abbrev after_chunks : File → ℕ → Option (ℕ × ℕ × I) → Option (Option ℕ × File × I)
  after_chunks f len o = elim o [
    | none ↦ none
    | some (i, off, ip') ↦
        some ((if as_size i == len then some len else none), record f { off = off }, ip')
  ]

  opened :
      (fuel : ℕ) (ip : I) (f : File) (len : ℕ)
      → f.writable ≡ true
      → filewrite_inode fuel ip f len ≡ after_chunks f len (write_chunks fuel ip len 0 f.off)
  unfolding filewrite_inode
  opened fuel ip f len w =
      ap
        (λ (b : Bool). elim b [
          | false ↦ some (none, f, ip)
          | true ↦ after_chunks f len (write_chunks fuel ip len 0 f.off)
        ])
        w

  result :
      (len off : ℕ) (out : ℕ × ℕ × I)
      → len < 2 ^ 31
      → Stops len 0 off out
      → (r : Option ℕ) × ((if as_size out.0 == len then some len else none) ≡ r)
        × (((r ≡ some len) × (out.1 ≡ (off + len) % 2 ^ 32))
            ⊎ ((r ≡ none)
                × ((i : ℕ) × (i < len) × FallsShort len i ((off + i) % 2 ^ 32) out.1 out.2)))
  result len off (i, off', ip') small (inl (e, o)) =
      let whole : (as_size i == len) ≡ true = ground (arith, e, small) in
      (some len, rw whole refl, inl (refl, omega (arith, o)))
  result len off (i, off', ip') small (inr (_, lt, call)) =
      let short : (as_size i == len) ≡ false = ground (arith, lt, small) in
      (
        none,
        rw short refl,
        inr (
          refl,
          (
            i,
            lt,
            subst (λ (o : ℕ). FallsShort len i o off' ip') {x = (off + (i - 0)) % 2 ^ 32}
                {y = (off + i) % 2 ^ 32} (omega arith) call,
          ),
        ),
      )

  -- For fewer than 2 ^ 31 bytes, `filewrite` on an inode that is open for writing ends within
  -- `len + 1` rounds, whatever `writei` does. It returns the length and moves the offset by it,
  -- modulo 2 ^ 32; or it returns -1 after a call of `writei`, at an index before the end and the
  -- offset that the bytes before it give, that did not write all it was asked for, and the inode and
  -- the offset are as this call leaves them. Only the offset of the file changes.
  pub filewrite_inode-total :
      (ip : I) (f : File) (len : ℕ)
      → f.writable ≡ true
      → len < 2 ^ 31
      → f.off < 2 ^ 32
      → (r : Option ℕ) × (off : ℕ) × (ip' : I) × (filewrite_inode (len + 1) ip f len
          ≡ some (r, record f { off = off }, ip'))
        × (((r ≡ some len) × (off ≡ (f.off + len) % 2 ^ 32))
            ⊎ ((r ≡ none)
                × ((i : ℕ) × (i < len) × FallsShort len i ((f.off + i) % 2 ^ 32) off ip')))
  unfolding filewrite_inode
  filewrite_inode-total ip f len w small h =
      let (out, run, stops) =
        write_chunks-Stops (len + 1) ip len 0 f.off (omega arith) small h (omega arith) in
      let (r, same, ends) = result len f.off out small stops in
      (
        r,
        out.1,
        out.2,
        opened (len + 1) ip f len w
            ∙ ap (after_chunks f len) run
            ∙ ap (λ (x : Option ℕ). some (x, record f { off = out.1 }, out.2)) same,
        ends,
      )
