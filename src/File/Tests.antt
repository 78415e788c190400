-- ===== src/File/Tests.antt =====
-- The theorems on include/base/file.h at a small system: ::write takes at most three bytes a call.
use net_base.Base.{
  ℕ, zero, suc, ◌<◌, ◌≡◌, refl, Bool, true, List, [], ◌∷◌, ◌++◌, some, length, take, min, arith,
}
use net_base.File.{
  WriteResult, wrote, interrupted, Kernel, KernelLaws, Written, WritableFile, write, open_file,
  append, close_file, resume,
}
use net_base.File.Write.{write-Writes, Writes}
use net_base.File.Flush.{KeepsAll, open_file-IsValid, buffered}
use net_base.File.Append.{append-Keeps}
use net_base.File.Close.{close_file-Closed, Closed}

-- The contents of the only file, and the signals still to come.
record Disk : Type 0 where
  stored : List ℕ
  pending : ℕ

small_write : ℕ → Disk → List ℕ → WriteResult × Disk
small_write (suc n) d bytes = (interrupted, record d { pending = n })
small_write zero d bytes = (
  wrote (min 3 (length bytes)),
  record d { stored = d.stored ++ take (min 3 (length bytes)) bytes },
)

abbrev small : Kernel
small = record {
  World = Disk;
  sys_write = λ d fd bytes. small_write d.pending d bytes;
  sys_close = λ d fd. (true, d);
}

small_write_law :
    (n : ℕ) (d : Disk) (bytes : List ℕ)
    → d.pending ≡ n
    → 0 < length bytes
    → Written
        (λ (x : Disk). x.stored)
        (λ x. x.pending)
        d
        bytes
        (small_write n d bytes).0
        (small_write n d bytes).1
unfolding small_write
small_write_law zero d bytes e h = (omega arith, omega arith, refl, omega arith)
small_write_law (suc n) d bytes e h = (refl, omega arith)

abbrev small_laws : KernelLaws small
small_laws = record {
  content = λ fd d. d.stored;
  signals = λ d. d.pending;
  write_law = λ w fd bytes h. small_write_law w.pending w bytes refl h;
  close_law = λ w fd. refl;
}

abbrev disk : Disk
disk = record { stored = 9 ∷ []; pending = 2 }

abbrev text : List ℕ
text = 1 ∷ 2 ∷ 3 ∷ 4 ∷ 5 ∷ 6 ∷ 7 ∷ []

abbrev log_file : WritableFile
log_file = open_file 4 (some 3)

write_runs :
    write small 5 disk (some 3) text ≡ some (true, record { stored = 9 ∷ text; pending = 0 })
unfolding write resume small_write
write_runs = refl

write-Writes_example : Writes small small_laws (some 3) disk text (write small 9 disk (some 3) text)
write-Writes_example = write-Writes small small_laws 9 disk (some 3) text (omega arith)

append-Keeps_example :
    KeepsAll small small_laws 4 disk log_file.fd
      (buffered log_file ++ text)
      (append small 4 13 disk log_file text)
append-Keeps_example =
    append-Keeps small small_laws 4 13 disk log_file text (omega arith)
      (open_file-IsValid 4 (some 3)) (omega arith)

close_file-Closed_example :
    (t : Bool × Disk × WritableFile) × (close_file small 2 disk log_file ≡ some t)
    × Closed small small_laws 4 disk log_file t
unfolding open_file
close_file-Closed_example =
    close_file-Closed small small_laws 4 2 disk log_file (open_file-IsValid 4 (some 3))
      (omega arith)
