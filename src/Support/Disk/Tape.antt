-- ===== src/Support/Disk/Tape.antt =====
-- `tapeToDisk`, block by block.
use patrick_landon_os.Base.{
  ℕ, zero, suc, ◌+◌, ◌<◌, ◌≡◌, ◌≢◌, refl, arith, List, ◌∷◌, Word, ◌+w◌, ◌⊎◌, inl, ◌-w◌, ◌==◌, inr,
  ◌||◌, false, subst, ap, ==_ne, ◌∙◌, sym, ◌*w◌,
}
use patrick_landon_os.Const.{wait_io, tape_int, eot, eof, read_blk, write_blk, verhogen}
use patrick_landon_os.Support.Vm.{Vm, Places, Event, call, store, ok, syscall}
use patrick_landon_os.Support.Disk.{tape_loop, tape_to_disk}
use patrick_landon_os.Support.Disk.Runs.{
  AlwaysReady, after_io, disk_io-ready, block_events, seek_events,
}

-- There are `n` more blocks on the tape before the mark that ends it.
pub record IsTape (n : ℕ) (m : Vm) : Type 0 where
  pub blocks :
      (j : ℕ) → j < n → (m.marks (m.blocks_read + j) ≢ eot) × (m.marks (m.blocks_read + j) ≢ eof)
  pub end : (m.marks (m.blocks_read + n) ≡ eot) ⊎ (m.marks (m.blocks_read + n) ≡ eof)

module _ (l : Places) (asid : Word) where
  -- The registers of the tape of the process: those of the tapes begin at 0x100000D0, one every 0x10
  -- bytes.
  abbrev pub tape_reg : Word
  tape_reg = 0x100000D0 +w (asid -w 1) *w 0x10

  -- The page of the process among the buffers of the tapes.
  abbrev pub buffer : Word
  buffer = 0x2002B000 +w (asid -w 1) *w 0x1000

  -- The semaphore of the first disk, the first of the array.
  abbrev pub disk_sem : Word
  disk_sem = l.dev_sem_array_addr + 0

  -- The block `i` of the tape is read.
  abbrev pub read_trace : List Event → List Event
  read_trace t =
      call wait_io tape_int (asid -w 1) 0
      ∷ store (tape_reg + 4) read_blk
      ∷ store (tape_reg + 8) buffer
      ∷ t

  -- It is written to the cylinder `i` of the disk, at the head 0 and the process's own sector.
  abbrev pub block_trace : Word → List Event → List Event
  block_trace i t =
      call verhogen disk_sem 0 0
      ∷ block_events (asid -w 1) i 0 disk_sem 0 buffer write_blk
          (seek_events (asid -w 1) i 0 disk_sem 0 buffer write_blk (read_trace t))

  abbrev pub after_read : Vm → Vm
  after_read m = record m {
    blocks_read = suc m.blocks_read;
    answered = suc m.answered;
    trace =
        call wait_io tape_int (asid -w 1) 0
        ∷ store (tape_reg + 4) read_blk
        ∷ store (tape_reg + 8) buffer
        ∷ m.trace;
  }

  -- The block `i` of the tape is read, and written to the cylinder `i` of the disk.
  abbrev pub after_block : Word → Vm → Vm
  after_block i m = after_io (asid -w 1) i 0 disk_sem 0 buffer write_blk (after_read m)

  unfoldable after_blocks : ℕ → Word → Vm → Vm
  after_blocks zero i m = m
  after_blocks (suc n) i m = after_blocks n (i +w 1) (after_block i m)

  here : (m : Vm) → m.blocks_read + 0 ≡ m.blocks_read
  here m = omega arith

  shift : (m : Vm) (j : ℕ) → m.blocks_read + suc j ≡ suc m.blocks_read + j
  shift m j = omega arith

  at_end : (k : ℕ) (i : Word) (m : Vm) → IsTape zero m → tape_loop l (suc k) asid i m ≡ ok tt m
  unfolding tape_loop
  at_end k i m t = elim t.end [
    | inl e ↦ rw (ap m.marks (sym (here m)) ∙ e) refl
    | inr e ↦ rw (ap m.marks (sym (here m)) ∙ e) refl
  ]

  IsTape-next : (n : ℕ) (m : Vm) (i : Word) → IsTape (suc n) m → IsTape n (after_block i m)
  IsTape-next n m i t = record {
    blocks = λ j h.
        subst (λ (i : ℕ). (m.marks i ≢ eot) × (m.marks i ≢ eof)) (shift m j)
          (t.blocks (suc j) (omega arith));
    end = subst (λ (i : ℕ). (m.marks i ≡ eot) ⊎ (m.marks i ≡ eof)) (shift m n) t.end;
  }

  step :
      (n k : ℕ) (i : Word) (m : Vm)
      → IsTape (suc n) m
      → AlwaysReady m
      → tape_loop l (suc k) asid i m ≡ tape_loop l k asid (i +w 1) (after_block i m)
  unfolding tape_loop syscall
  step n k i m t r =
      rw
        (
          neither,
          r m.answered,
          disk_io-ready (asid -w 1) i 0 disk_sem 0 buffer write_blk l (after_read m)
              (r (suc (suc m.answered))) (r (suc (suc (suc m.answered)))),
        )
        refl
    where
      neither : (m.marks m.blocks_read == eot || m.marks m.blocks_read == eof) ≡ false
      neither =
          let (a, b) = t.blocks 0 (omega arith) in
          rw
            (
              ==_ne (m.marks m.blocks_read) eot (λ e. a (ap m.marks (here m) ∙ e)),
              ==_ne (m.marks m.blocks_read) eof (λ e. b (ap m.marks (here m) ∙ e)),
            )
            refl

  -- What is done for `n` blocks, the first of which goes to the cylinder `i`.
  unfoldable pub tape_events : ℕ → Word → List Event → List Event
  tape_events zero i t = t
  tape_events (suc n) i t = tape_events n (i +w 1) (block_trace i t)

  runs-all :
      (n k : ℕ) (i : Word) (m : Vm)
      → n < k
      → IsTape n m
      → AlwaysReady m
      → tape_loop l k asid i m ≡ ok tt (after_blocks n i m)
  unfolding after_blocks
  runs-all n zero i m h t r = absurd (omega (arith, h))
  runs-all zero (suc k) i m h t r = at_end k i m t
  runs-all (suc n) (suc k) i m h t r =
      step n k i m t r
      ∙ runs-all n k (i +w 1) (after_block i m) (omega (arith, h)) (IsTape-next n m i t) r

  read-all : (n : ℕ) (i : Word) (m : Vm) → (after_blocks n i m).blocks_read ≡ m.blocks_read + n
  unfolding after_blocks
  read-all zero i m = omega arith
  read-all (suc n) i m = read-all n (i +w 1) (after_block i m) ∙ sym (shift m n)

  trace-all : (n : ℕ) (i : Word) (m : Vm) → (after_blocks n i m).trace ≡ tape_events n i m.trace
  unfolding after_blocks tape_events
  trace-all zero i m = refl
  trace-all (suc n) i m = trace-all n (i +w 1) (after_block i m)

  procs-all : (n : ℕ) (i : Word) (m : Vm) → (after_blocks n i m).u_procs ≡ m.u_procs
  unfolding after_blocks
  procs-all zero i m = refl
  procs-all (suc n) i m = procs-all n (i +w 1) (after_block i m)

  entry-all : (n : ℕ) (i : Word) (m : Vm) → (after_blocks n i m).entry_hi ≡ m.entry_hi
  unfolding after_blocks
  entry-all zero i m = refl
  entry-all (suc n) i m = entry-all n (i +w 1) (after_block i m)

  uninit-all : (n : ℕ) (i : Word) (m : Vm) → (after_blocks n i m).uninit_state ≡ m.uninit_state
  unfolding after_blocks
  uninit-all zero i m = refl
  uninit-all (suc n) i m = uninit-all n (i +w 1) (after_block i m)

-- What `tapeToDisk` leaves behind after a tape of `n` blocks.
pub record Copied (l : Places) (rounds : ℕ) (asid : Word) (n : ℕ) (m : Vm) : Type 0 where
  pub last : Vm
  pub runs : tape_to_disk l rounds asid m ≡ ok tt last
  pub read : last.blocks_read ≡ m.blocks_read + n
  pub events : last.trace ≡ tape_events l asid n 0 m.trace
  pub procs : last.u_procs ≡ m.u_procs
  pub entry : last.entry_hi ≡ m.entry_hi
  pub uninit : last.uninit_state ≡ m.uninit_state

-- `tapeToDisk` on a tape with `n` blocks before its mark EOT or EOF, where each call returns READY: it
-- comes back, for any bound on the rounds above `n`. It has read the `n` blocks, and what it did is,
-- for each in turn, to read it from the tape of the process, and to write it, under the disk's
-- semaphore, to the cylinder with the block's number at the process's sector.
pub tape_to_disk-Copied :
    (l : Places) (rounds : ℕ) (asid : Word) (n : ℕ) (m : Vm)
    → n < rounds
    → IsTape n m
    → AlwaysReady m
    → Copied l rounds asid n m
unfolding tape_to_disk
tape_to_disk-Copied l rounds asid n m h t r = record {
  last = after_blocks l asid n 0 m;
  runs = runs-all l asid n rounds 0 m h t r;
  read = read-all l asid n 0 m;
  events = trace-all l asid n 0 m;
  procs = procs-all l asid n 0 m;
  entry = entry-all l asid n 0 m;
  uninit = uninit-all l asid n 0 m;
}
