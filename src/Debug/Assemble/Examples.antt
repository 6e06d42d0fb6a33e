-- ===== src/Debug/Assemble/Examples.antt =====
-- `JMP SHORT 0100`, assembled at 0110.
use rmdos.Base.{inr, arith, some, false, Buffer, zeroed}
use rmdos.Strings.{lit, lit-At}
use Prim.{tt}
use rmdos.Debug.{Arena}
use rmdos.Debug.Code.{disasm_one}
use rmdos.Debug.Assemble.{cmd_a}
use rmdos.Debug.Assemble.Trip.{jump_short, typed}
use rmdos.Debug.Assemble.Back.{Back, disasm_one-cmd_a}

abbrev arena : Arena
arena = record { mem = zeroed; default_addr = 0x110; load_len = 0; did_dump = false }

abbrev line : Buffer
line = lit (typed (jump_short 0x100))

abbrev after : Arena
after = (cmd_a 20 0x110 (some line) arena).1

disasm_one-cmd_a_example : Back (jump_short 0x100) 0x110 after (disasm_one 0x110 after)
disasm_one-cmd_a_example =
    disasm_one-cmd_a 0x110 arena (omega arith) (jump_short 0x100) 20 line (omega arith)
      (omega arith) (inr (omega arith))
      (lit-At (typed (jump_short 0x100)) (
        omega arith,
        omega arith,
        (
          omega arith,
          omega arith,
          (
            omega arith,
            omega arith,
            (
              omega arith,
              omega arith,
              (
                omega arith,
                omega arith,
                (
                  omega arith,
                  omega arith,
                  (
                    omega arith,
                    omega arith,
                    (
                      omega arith,
                      omega arith,
                      (
                        omega arith,
                        omega arith,
                        (
                          omega arith,
                          omega arith,
                          (
                            omega arith,
                            omega arith,
                            (
                              omega arith,
                              omega arith,
                              (omega arith, omega arith, (omega arith, omega arith, tt)),
                            ),
                          ),
                        ),
                      ),
                    ),
                  ),
                ),
              ),
            ),
          ),
        ),
      ))
