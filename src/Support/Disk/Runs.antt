-- ===== src/Support/Disk/Runs.antt =====
-- What `diskIO` does when the disk carries out both commands, and when it does not.
use patrick_landon_os.Base.{
  ℕ, suc, ◌≡◌, ◌≢◌, refl, List, ◌∷◌, Word, bit_or, bit_and, ==_ne, ◌+w◌, ◌+◌, true, ◌*w◌,
}
use patrick_landon_os.Machine.Memory.{Ptr}
use patrick_landon_os.Const.{
  passeren, verhogen, wait_io, disk_int, seek_cyl, ready, terminate, inter_unmasked,
}
use patrick_landon_os.Support.Vm.{
  Vm, Event, call, store, ok, gone, syscall, Places, blocked, take_pool,
}
use patrick_landon_os.Support.Disk.{disk_io, disable_ints, shl8, shl16}
use patrick_landon_os.Support.Terminate.{terminate_call, terminate_user_proc}

-- Each call of SYSCALL returns READY.
abbrev pub AlwaysReady : Vm → Type 0
AlwaysReady m = (k : ℕ) → m.answers k ≡ ready

-- The status register with interrupts off, and on again.
abbrev pub ints_off : Word → Word
ints_off w = bit_and w 0xFFFF00FE

abbrev pub ints_on : Word → Word
ints_on w = bit_or (bit_or w 1) inter_unmasked

module _ (sector cyl head : Word) (sem : Ptr) (disk_num mem_buf command : Word) where
  -- The registers of the disks begin at 0x10000050, one every 0x10 bytes.
  abbrev pub disk_reg : Ptr
  disk_reg = 0x10000050 +w disk_num *w 0x10

  -- The seek: the semaphore is taken, the command is given and awaited.
  abbrev pub seek_events : List Event → List Event
  seek_events t =
      call wait_io disk_int disk_num 0
      ∷ store (disk_reg + 4) (bit_or (shl8 cyl) seek_cyl)
      ∷ call passeren sem 0 0
      ∷ t

  -- The transfer.
  abbrev pub block_events : List Event → List Event
  block_events t =
      call wait_io disk_int disk_num 0
      ∷ store (disk_reg + 4) (bit_or (bit_or (shl16 head) (shl8 sector)) command)
      ∷ store (disk_reg + 8) mem_buf
      ∷ t

  abbrev pub after_io : Vm → Vm
  after_io m = record m {
    cp0_status = ints_on (ints_off (ints_on (ints_off m.cp0_status)));
    answered = suc (suc (suc (suc m.answered)));
    trace = call verhogen sem 0 0 ∷ block_events (seek_events m.trace);
  }

  pub disk_io-ready :
      (l : Places) (m : Vm)
      → m.answers (suc m.answered) ≡ ready
      → m.answers (suc (suc m.answered)) ≡ ready
      → disk_io l sector cyl head sem disk_num mem_buf command m ≡ ok tt (after_io m)
  unfolding disk_io disable_ints syscall
  disk_io-ready l m h k = rw (h, k) refl

  -- Where the seek fails and the process holds the pool's semaphore, the process waits for itself.
  abbrev pub after_bad_seek : Places → Vm → Vm
  after_bad_seek l m = record m {
    cp0_status = ints_on (ints_off m.cp0_status);
    answered = suc (suc m.answered);
    trace = call passeren l.swap_pool_sem_addr 0 0 ∷ call terminate 0 0 0 ∷ seek_events m.trace;
  }

  pub disk_io-bad_seek :
      (l : Places) (m : Vm)
      → m.pool_held ≡ true
      → m.answers (suc m.answered) ≢ ready
      → disk_io l sector cyl head sem disk_num mem_buf command m
        ≡ gone (blocked l.swap_pool_sem_addr) (after_bad_seek l m)
  unfolding disk_io disable_ints syscall terminate_call terminate_user_proc take_pool
  disk_io-bad_seek l m held h = rw (==_ne (m.answers (suc m.answered)) ready h, held) refl
