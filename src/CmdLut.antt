-- ===== src/CmdLut.antt =====
-- The decoder's table of the 704 insert-and-copy symbols, internal/core/cmdlut.go.
pub mod Element
mod Rows0
mod Rows1
mod Rows2
mod Rows3
use Rows0.{rows_0}
use Rows1.{rows_1}
use Rows2.{rows_2}
use Rows3.{rows_3}
use go_brrr.Prelude.{ℕ, List, ◌++◌, get_or}
use go_brrr.Prelude.Int.{pos}
use go_brrr.CmdLut.Element.{CmdLutElement, row}

unfoldable pub cmd_lut : List CmdLutElement
unfolding rows_0 rows_1 rows_2 rows_3
cmd_lut = rows_0 ++ (rows_1 ++ (rows_2 ++ rows_3))

-- `core.CmdLut[symbol]`.
unfoldable pub cmd_lut_at : ℕ → CmdLutElement
cmd_lut_at symbol = get_or cmd_lut symbol (row 0 0 (pos 0) 0 0 0)
