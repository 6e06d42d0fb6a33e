-- ===== src/Edit/RoundTrip.antt =====
-- A file through the editor and back.
use mathlib.Core.Path.{ap₂}
use rmdos.Base.{Bool, ℕ, ◌<◌, ◌≡◌, true, some, List, Option, Buffer, slice, arith, ap, ◌∙◌}
use rmdos.Edit.{Editor}
use rmdos.Edit.Files.{save_file, save_file_lem}
use rmdos.Edit.Load.{load_file, have_path-load_file, load_file-slice, Reads}

-- A file shorter than the buffer, loaded and then saved with writes that take all they are given,
-- is written back byte for byte, and the save is complete.
pub save_file-load_file :
    (f : Buffer) (size : ℕ) (read : ℕ → ℕ → Option (List ℕ)) (write : ℕ → ℕ → ℕ) (s : Editor)
    → ((m : ℕ) → f m < 256)
    → Reads f size read
    → ((n m : ℕ) → write n m ≡ m)
    → s.have_path ≡ true
    → size < s.buf_cap
    → (save_file write true (load_file read true s)).1
      ≡ some (record { complete = true; file = slice f 0 size })
save_file-load_file f size read write s bytes reads writes path fits =
    let (len, text, at, clean, room) =
      load_file-slice f size read bytes reads s path (omega arith) in
    let (r, result, whole, failed, all) =
      save_file_lem write (load_file read true s) (have_path-load_file read true s ∙ path) in
    let done = all writes in
    let file : r.file ≡ slice f 0 size = (whole done).0 ∙ text ∙ ap (slice f 0) (ground arith) in
    result ∙ ap₂ (λ (c : Bool) (b : List ℕ). some (record { complete = c; file = b })) done file
