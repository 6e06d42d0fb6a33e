-- ===== src/Debug/Files/Examples.antt =====
-- A disk with one file, and an arena with two bytes.
use rmdos.Base.{
  ℕ, true, false, ◌≡◌, refl, arith, List, [], ◌++◌, some, ◌==◌, if◌then◌else◌, zeroed, length, take,
}
use rmdos.Strings.{drop}
use rmdos.Debug.{Arena}
use rmdos.Debug.Files.{Disk, Session, fetch_bytes, cmd_l, cmd_w}
use rmdos.Debug.Files.Trip.{HoldsFile}
use rmdos.Debug.Files.Load.{Reloaded, cmd_l-cmd_w}

-- What the file holds, and what the handle has not read.
abbrev World : Type 0
World = List ℕ × List ℕ

abbrev disk : Disk World
disk = record {
  dos_open = λ p mode w. (some 5, (w.0, w.0));
  dos_create = λ p attr w. (some 5, ([], []));
  dos_read = λ h n w. (some (take n w.1), (w.0, drop n w.1));
  dos_write = λ h bs w. (length bs, (w.0 ++ bs, w.1));
  dos_close = λ h w. w;
}

abbrev content : World → List ℕ
content w = w.0

abbrev rest : World → List ℕ
rest w = w.1

laws : HoldsFile disk content rest
laws = record {
  creates = λ p w. refl;
  writes_all = λ h bs w. refl;
  writes = λ h bs w. refl;
  opens = λ p w. refl;
  reads = λ h n w. refl;
  reads_on = λ h n w. refl;
  closes = λ h w. refl;
}

abbrev arena : Arena
arena = record {
  mem = λ j. if j == 0x100 then 0x90 else 0xC3;
  default_addr = 0x100;
  load_len = 2;
  did_dump = false;
}

abbrev session : Session World
session = record {
  arena = arena;
  path = zeroed;
  have_path = true;
  reg_ip = 0x100;
  world = ([], []);
}

abbrev cleared : Arena
cleared = record { mem = zeroed; default_addr = 0; load_len = 0; did_dump = false }

cmd_l-cmd_w_example :
    ((cmd_w disk 0x7000 session).0 ≡ true)
    × Reloaded disk content rest laws 2 (fetch_bytes 2 0x100 arena) (
        cmd_l disk 0x7000 (record {
          arena = cleared;
          path = zeroed;
          have_path = true;
          reg_ip = 0;
          world = (cmd_w disk 0x7000 session).1.world;
        }))
cmd_l-cmd_w_example =
    cmd_l-cmd_w disk content rest laws 0x7000 5 5 session zeroed cleared 0 refl (λ j. ground arith)
      (omega arith) (omega arith) (omega arith) refl refl
