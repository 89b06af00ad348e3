-- ===== src/Kernel/Calls/Through.antt =====
-- What a write, a seek and a read do through the descriptor of a regular file (`do_file_write`,
-- `do_lseek` and `do_file_read` of Assignment2/entry.c).
use cs330_assignments.Base.{
  ℕ, ◌+◌, ◌%◌, ◌^◌, ◌≤◌, ◌<◌, ◌≡◌, ◌≢◌, refl, ap, ap₂, ◌∙◌, arith, false, not, Option, none, some,
  ◌==◌, update, ℤ, pos, bit_and, Memory, s64,
}
use cs330_assignments.FileSystem.State.{Inode, file_capacity, set_inode}
use cs330_assignments.FileSystem.Bytes.File.{FileInOrder, Write, refused, written}
use cs330_assignments.FileSystem.Bytes.{flat_read}
use cs330_assignments.OpenFiles.State.{File, on_inode}
use cs330_assignments.OpenFiles.Regular.{
  o_read, o_write, seek_set, do_read_regular, do_write_regular, do_lseek_regular,
}
use cs330_assignments.OpenFiles.Regular.Offset.{
  Writes, refused_back, written_on, do_write_regular-Writes, do_lseek_regular-Seek, Seek, outside,
  inside, Target,
}
use cs330_assignments.Kernel.State.{Kernel}
use cs330_assignments.Kernel.Files.{inode_of, set_object, set_written, write_object, read_object}
use cs330_assignments.Kernel.Calls.{
  Devices, run_read, run_write, run_lseek, do_file_read, do_file_write, do_lseek,
}

-- An object of a regular file, open for both directions, at an offset.
pub record Ready (i offset : ℕ) (f : File) : Type 0 where
  pub reads : f.fops.read ≡ on_inode
  pub writes : f.fops.write ≡ on_inode
  pub seeks : f.fops.lseek ≡ on_inode
  pub may_read : bit_and f.mode o_read ≡ o_read
  pub may_write : bit_and f.mode o_write ≡ o_write
  pub index : f.inode ≡ some i
  pub position : f.offp ≡ offset

-- A descriptor of such an object.
pub record OpenFile (files : ℕ → ℕ) (fd i offset : ℕ) (k : Kernel) : Type 0 where
  pub used : files fd ≢ 0
  pub ready : Ready i offset (k.store.object (files fd))
  pub order : FileInOrder (k.sb.inode i)

Ready-move : (i o p : ℕ) (f : File) → Ready i o f → Ready i p (record f { offp = p })
Ready-move i o p f h = record {
  reads = h.reads;
  writes = h.writes;
  seeks = h.seeks;
  may_read = h.may_read;
  may_write = h.may_write;
  index = h.index;
  position = refl;
}

Write-FileInOrder :
    {n : Inode} {buf : ℕ → ℕ} {count off : ℕ} {mem : Memory} {w : ℤ × Inode × Memory}
    → Write n buf count off mem w
    → w.0 ≡ pos count
    → FileInOrder w.1
Write-FileInOrder (refused l) e = absurd (ground (arith, e))
Write-FileInOrder (written l v s z b o) e = v

points : (i o : ℕ) (f : File) (k : Kernel) → Ready i o f → inode_of k f ≡ some (k.sb.inode i)
points i o f k h = rw h.index refl

module _ (files : ℕ → ℕ) (fd i offset : ℕ) (k : Kernel) (h : OpenFile files fd i offset k)
    (buf : ℕ → ℕ) (count : ℕ) (fits : offset + count ≤ file_capacity) where
  -- What the write leaves.
  pub record Wrote (w : ℤ × Kernel) : Type 0 where
    pub result : w.0 ≡ pos count
    pub still : OpenFile files fd i (offset + count) w.1
    pub write : Write (k.sb.inode i) buf count offset k.mem (pos count, w.1.sb.inode i, w.1.mem)

  set_written-Wrote :
      (x : ℤ × File × Option Inode × Memory)
      → Writes (k.store.object (files fd)) (k.sb.inode i) buf count k.mem x
      → Wrote (x.0, set_written k (files fd) x.1 x.2 x.3)
  set_written-Wrote x (refused_back l) = absurd (ground (arith, h.ready.position))
  set_written-Wrote x (written_on {n' = n'} {mem' = mem'} w l) =
      let f = k.store.object (files fd) in
      let f' = record f { offp = f.offp + count } in
      let stored : set_written k (files fd) f' (some n') mem'
          ≡ record (set_object k (files fd) f') { mem = mem'; sb = set_inode k.sb i n' } =
        rw h.ready.index refl in
      let here : update k.store.object (files fd) f' (files fd) ≡ f' = ground arith in
      let there : update k.sb.inode i n' i ≡ n' = ground arith in
      let moved : f.offp + count ≡ offset + count = ap (λ (x : ℕ). x + count) h.ready.position in
      rw stored (record {
        result = refl;
        still = record {
          used = h.used;
          ready = rw here (rw moved (Ready-move i offset (offset + count) f h.ready));
          order = rw there (Write-FileInOrder w refl);
        };
        write = rw there (rw h.ready.position at w);
      })

  -- The handlers on the inode that the object points to.
  abbrev written_on_inode : Option Inode → ℤ × Kernel
  written_on_inode o =
      let w = do_write_regular (k.store.object (files fd)) o buf count k.mem in
      (w.0, set_written k (files fd) w.1 w.2 w.3)

  do_file_write-run_write :
      (d : Devices)
      → do_file_write d fd buf count files k
        ≡ run_write d (k.store.object (files fd)).fops.write (files fd) buf (count % 2 ^ 32) k
  unfolding do_file_write
  do_file_write-run_write d =
      let used : (files fd == 0) ≡ false = ground (arith, h.used) in
      let may : (bit_and (k.store.object (files fd)).mode o_write == 0) ≡ false =
        ground (arith, h.ready.may_write) in
      rw (used, may) refl

  run_write-written :
      (d : Devices)
      → run_write d on_inode (files fd) buf count k ≡ written_on_inode (some (k.sb.inode i))
  unfolding run_write write_object
  run_write-written d = ap written_on_inode (points i offset _ k h.ready)

  pub do_file_write-Wrote : (d : Devices) → Wrote (do_file_write d fd buf count files k)
  do_file_write-Wrote d =
      let whole : count % 2 ^ 32 ≡ count = omega arith in
      let call : do_file_write d fd buf count files k ≡ written_on_inode (some (k.sb.inode i)) =
        do_file_write-run_write d
        ∙ ap₂ (λ x c. run_write d x (files fd) buf c k) h.ready.writes whole
        ∙ run_write-written d in
      rw call (
        set_written-Wrote _ (
          do_write_regular-Writes (k.store.object (files fd)) (k.sb.inode i) buf count k.mem h.order
            (omega (arith, h.ready.position)) (omega arith) (omega (arith, h.ready.may_write))))

module _ (files : ℕ → ℕ) (fd i offset p : ℕ) (k : Kernel) (h : OpenFile files fd i offset k)
    (small : offset < 2 ^ 31) (within : p ≤ (k.sb.inode i).file_size) where
  -- What a seek to a position within the file leaves.
  pub data Sought : Option (ℤ × Kernel) → Type 0 where
    sought :
        {k' : Kernel}
        → OpenFile files fd i p k'
        → k'.sb ≡ k.sb
        → k'.mem ≡ k.mem
        → Sought (some (pos p, k'))

  set_object-Sought :
      (r : ℤ × File)
      → Seek (k.store.object (files fd)) (k.sb.inode i) (pos p) r
      → Sought (some (r.0, set_object k (files fd) r.1))
  set_object-Sought r (outside o) = absurd (ground arith)
  set_object-Sought r (inside q e l) =
      let f = k.store.object (files fd) in
      let same : q ≡ p = ground (arith, e) in
      let here : update k.store.object (files fd) (record f { offp = p }) (files fd)
          ≡ record f { offp = p } =
        ground arith in
      rw same (
        sought
          (record {
            used = h.used;
            ready = rw here (Ready-move i offset p f h.ready);
            order = h.order;
          })
          refl refl)

  do_lseek-run_lseek :
      do_lseek fd p seek_set files k
      ≡ run_lseek (k.store.object (files fd)).fops.lseek (files fd) p seek_set k
  unfolding do_lseek
  do_lseek-run_lseek = let used : (files fd == 0) ≡ false = ground (arith, h.used) in rw used refl

  abbrev sought_on_inode : Option Inode → Option (ℤ × Kernel)
  sought_on_inode o = elim o [
    | none ↦ none
    | some n ↦
        let r = do_lseek_regular (k.store.object (files fd)) n p seek_set in
        some (r.0, set_object k (files fd) r.1)
  ]

  run_lseek-sought :
      run_lseek on_inode (files fd) p seek_set k ≡ sought_on_inode (some (k.sb.inode i))
  unfolding run_lseek
  run_lseek-sought = ap sought_on_inode (points i offset _ k h.ready)

  pub do_lseek-Sought : Sought (do_lseek fd p seek_set files k)
  do_lseek-Sought =
      let v = h.order in
      let size : p < 2 ^ 31 = omega (arith, v.size, v.fits, v.region) in
      let call : do_lseek fd p seek_set files k ≡ sought_on_inode (some (k.sb.inode i)) =
        do_lseek-run_lseek
        ∙ ap (λ x. run_lseek x (files fd) p seek_set k) h.ready.seeks
        ∙ run_lseek-sought in
      let target : Target (k.store.object (files fd)) (k.sb.inode i) p seek_set (pos p) =
        let word : s64 p ≡ pos p = ground arith in
        let start : Target (k.store.object (files fd)) (k.sb.inode i) p seek_set (s64 p) =
          Target.from_start in
        rw word at start in
      rw call (
        set_object-Sought _ (
          do_lseek_regular-Seek (k.store.object (files fd)) (k.sb.inode i) p seek_set (pos p)
            h.order (omega (arith, h.ready.position)) (omega arith) target))

module _ (files : ℕ → ℕ) (fd i offset : ℕ) (k : Kernel) (h : OpenFile files fd i offset k)
    (d : Devices) (out : ℕ → ℕ) (count : ℕ) (c : count < 2 ^ 32) where
  abbrev read_on_inode : Option Inode → ℤ × (ℕ → ℕ)
  read_on_inode o =
      let r = do_read_regular (k.store.object (files fd)) o out count k.mem in (r.0, r.2)

  do_file_read-run_read :
      do_file_read d fd out count files k
      ≡ run_read d (k.store.object (files fd)).fops.read (files fd) out (count % 2 ^ 32) k
  unfolding do_file_read
  do_file_read-run_read =
      let used : (files fd == 0) ≡ false = ground (arith, h.used) in
      let may : not (bit_and (k.store.object (files fd)).mode o_read == o_read) ≡ false =
        ground (arith, h.ready.may_read) in
      rw (used, may) refl

  -- A result and a buffer, without the kernel.
  abbrev pub seen : ℤ × (ℕ → ℕ) × Kernel → ℤ × (ℕ → ℕ)
  seen r = (r.0, r.1)

  run_read-read :
      seen (run_read d on_inode (files fd) out count k) ≡ read_on_inode (some (k.sb.inode i))
  unfolding run_read read_object
  run_read-read = ap read_on_inode (points i offset _ k h.ready)

  read_on_inode-flat_read :
      read_on_inode (some (k.sb.inode i)) ≡ flat_read (k.sb.inode i) out count offset k.mem
  unfolding do_read_regular
  read_on_inode-flat_read =
      let may : (bit_and (k.store.object (files fd)).mode o_read == 0) ≡ false =
        ground (arith, h.ready.may_read) in
      rw may (ap (λ o. flat_read (k.sb.inode i) out count o k.mem) h.ready.position)

  pub do_file_read-flat_read :
      seen (do_file_read d fd out count files k) ≡ flat_read (k.sb.inode i) out count offset k.mem
  do_file_read-flat_read =
      let whole : count % 2 ^ 32 ≡ count = omega arith in
      ap seen do_file_read-run_read
      ∙ ap₂ (λ x c. seen (run_read d x (files fd) out c k)) h.ready.reads whole
      ∙ run_read-read
      ∙ read_on_inode-flat_read
