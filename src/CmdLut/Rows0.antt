-- ===== src/CmdLut/Rows0.antt =====
-- Lines 7 to 182 of internal/core/cmdlut.go: symbols 0 to 175 of CmdLut.
use go_brrr.Prelude.{List, [], ◌∷◌}
use go_brrr.Prelude.Int.{pos, negsuc}
use go_brrr.CmdLut.Element.{CmdLutElement, row}

unfoldable pub rows_0 : List CmdLutElement
rows_0 =
    row 0 0 (pos 0) 0 0 2
    ∷ row 0 0 (pos 0) 1 0 3
    ∷ row 0 0 (pos 0) 2 0 4
    ∷ row 0 0 (pos 0) 3 0 5
    ∷ row 0 0 (pos 0) 3 0 6
    ∷ row 0 0 (pos 0) 3 0 7
    ∷ row 0 0 (pos 0) 3 0 8
    ∷ row 0 0 (pos 0) 3 0 9
    ∷ row 0 0 (pos 0) 0 1 2
    ∷ row 0 0 (pos 0) 1 1 3
    ∷ row 0 0 (pos 0) 2 1 4
    ∷ row 0 0 (pos 0) 3 1 5
    ∷ row 0 0 (pos 0) 3 1 6
    ∷ row 0 0 (pos 0) 3 1 7
    ∷ row 0 0 (pos 0) 3 1 8
    ∷ row 0 0 (pos 0) 3 1 9
    ∷ row 0 0 (pos 0) 0 2 2
    ∷ row 0 0 (pos 0) 1 2 3
    ∷ row 0 0 (pos 0) 2 2 4
    ∷ row 0 0 (pos 0) 3 2 5
    ∷ row 0 0 (pos 0) 3 2 6
    ∷ row 0 0 (pos 0) 3 2 7
    ∷ row 0 0 (pos 0) 3 2 8
    ∷ row 0 0 (pos 0) 3 2 9
    ∷ row 0 0 (pos 0) 0 3 2
    ∷ row 0 0 (pos 0) 1 3 3
    ∷ row 0 0 (pos 0) 2 3 4
    ∷ row 0 0 (pos 0) 3 3 5
    ∷ row 0 0 (pos 0) 3 3 6
    ∷ row 0 0 (pos 0) 3 3 7
    ∷ row 0 0 (pos 0) 3 3 8
    ∷ row 0 0 (pos 0) 3 3 9
    ∷ row 0 0 (pos 0) 0 4 2
    ∷ row 0 0 (pos 0) 1 4 3
    ∷ row 0 0 (pos 0) 2 4 4
    ∷ row 0 0 (pos 0) 3 4 5
    ∷ row 0 0 (pos 0) 3 4 6
    ∷ row 0 0 (pos 0) 3 4 7
    ∷ row 0 0 (pos 0) 3 4 8
    ∷ row 0 0 (pos 0) 3 4 9
    ∷ row 0 0 (pos 0) 0 5 2
    ∷ row 0 0 (pos 0) 1 5 3
    ∷ row 0 0 (pos 0) 2 5 4
    ∷ row 0 0 (pos 0) 3 5 5
    ∷ row 0 0 (pos 0) 3 5 6
    ∷ row 0 0 (pos 0) 3 5 7
    ∷ row 0 0 (pos 0) 3 5 8
    ∷ row 0 0 (pos 0) 3 5 9
    ∷ row 1 0 (pos 0) 0 6 2
    ∷ row 1 0 (pos 0) 1 6 3
    ∷ row 1 0 (pos 0) 2 6 4
    ∷ row 1 0 (pos 0) 3 6 5
    ∷ row 1 0 (pos 0) 3 6 6
    ∷ row 1 0 (pos 0) 3 6 7
    ∷ row 1 0 (pos 0) 3 6 8
    ∷ row 1 0 (pos 0) 3 6 9
    ∷ row 1 0 (pos 0) 0 8 2
    ∷ row 1 0 (pos 0) 1 8 3
    ∷ row 1 0 (pos 0) 2 8 4
    ∷ row 1 0 (pos 0) 3 8 5
    ∷ row 1 0 (pos 0) 3 8 6
    ∷ row 1 0 (pos 0) 3 8 7
    ∷ row 1 0 (pos 0) 3 8 8
    ∷ row 1 0 (pos 0) 3 8 9
    ∷ row 0 1 (pos 0) 3 0 10
    ∷ row 0 1 (pos 0) 3 0 12
    ∷ row 0 2 (pos 0) 3 0 14
    ∷ row 0 2 (pos 0) 3 0 18
    ∷ row 0 3 (pos 0) 3 0 22
    ∷ row 0 3 (pos 0) 3 0 30
    ∷ row 0 4 (pos 0) 3 0 38
    ∷ row 0 4 (pos 0) 3 0 54
    ∷ row 0 1 (pos 0) 3 1 10
    ∷ row 0 1 (pos 0) 3 1 12
    ∷ row 0 2 (pos 0) 3 1 14
    ∷ row 0 2 (pos 0) 3 1 18
    ∷ row 0 3 (pos 0) 3 1 22
    ∷ row 0 3 (pos 0) 3 1 30
    ∷ row 0 4 (pos 0) 3 1 38
    ∷ row 0 4 (pos 0) 3 1 54
    ∷ row 0 1 (pos 0) 3 2 10
    ∷ row 0 1 (pos 0) 3 2 12
    ∷ row 0 2 (pos 0) 3 2 14
    ∷ row 0 2 (pos 0) 3 2 18
    ∷ row 0 3 (pos 0) 3 2 22
    ∷ row 0 3 (pos 0) 3 2 30
    ∷ row 0 4 (pos 0) 3 2 38
    ∷ row 0 4 (pos 0) 3 2 54
    ∷ row 0 1 (pos 0) 3 3 10
    ∷ row 0 1 (pos 0) 3 3 12
    ∷ row 0 2 (pos 0) 3 3 14
    ∷ row 0 2 (pos 0) 3 3 18
    ∷ row 0 3 (pos 0) 3 3 22
    ∷ row 0 3 (pos 0) 3 3 30
    ∷ row 0 4 (pos 0) 3 3 38
    ∷ row 0 4 (pos 0) 3 3 54
    ∷ row 0 1 (pos 0) 3 4 10
    ∷ row 0 1 (pos 0) 3 4 12
    ∷ row 0 2 (pos 0) 3 4 14
    ∷ row 0 2 (pos 0) 3 4 18
    ∷ row 0 3 (pos 0) 3 4 22
    ∷ row 0 3 (pos 0) 3 4 30
    ∷ row 0 4 (pos 0) 3 4 38
    ∷ row 0 4 (pos 0) 3 4 54
    ∷ row 0 1 (pos 0) 3 5 10
    ∷ row 0 1 (pos 0) 3 5 12
    ∷ row 0 2 (pos 0) 3 5 14
    ∷ row 0 2 (pos 0) 3 5 18
    ∷ row 0 3 (pos 0) 3 5 22
    ∷ row 0 3 (pos 0) 3 5 30
    ∷ row 0 4 (pos 0) 3 5 38
    ∷ row 0 4 (pos 0) 3 5 54
    ∷ row 1 1 (pos 0) 3 6 10
    ∷ row 1 1 (pos 0) 3 6 12
    ∷ row 1 2 (pos 0) 3 6 14
    ∷ row 1 2 (pos 0) 3 6 18
    ∷ row 1 3 (pos 0) 3 6 22
    ∷ row 1 3 (pos 0) 3 6 30
    ∷ row 1 4 (pos 0) 3 6 38
    ∷ row 1 4 (pos 0) 3 6 54
    ∷ row 1 1 (pos 0) 3 8 10
    ∷ row 1 1 (pos 0) 3 8 12
    ∷ row 1 2 (pos 0) 3 8 14
    ∷ row 1 2 (pos 0) 3 8 18
    ∷ row 1 3 (pos 0) 3 8 22
    ∷ row 1 3 (pos 0) 3 8 30
    ∷ row 1 4 (pos 0) 3 8 38
    ∷ row 1 4 (pos 0) 3 8 54
    ∷ row 0 0 (negsuc 0) 0 0 2
    ∷ row 0 0 (negsuc 0) 1 0 3
    ∷ row 0 0 (negsuc 0) 2 0 4
    ∷ row 0 0 (negsuc 0) 3 0 5
    ∷ row 0 0 (negsuc 0) 3 0 6
    ∷ row 0 0 (negsuc 0) 3 0 7
    ∷ row 0 0 (negsuc 0) 3 0 8
    ∷ row 0 0 (negsuc 0) 3 0 9
    ∷ row 0 0 (negsuc 0) 0 1 2
    ∷ row 0 0 (negsuc 0) 1 1 3
    ∷ row 0 0 (negsuc 0) 2 1 4
    ∷ row 0 0 (negsuc 0) 3 1 5
    ∷ row 0 0 (negsuc 0) 3 1 6
    ∷ row 0 0 (negsuc 0) 3 1 7
    ∷ row 0 0 (negsuc 0) 3 1 8
    ∷ row 0 0 (negsuc 0) 3 1 9
    ∷ row 0 0 (negsuc 0) 0 2 2
    ∷ row 0 0 (negsuc 0) 1 2 3
    ∷ row 0 0 (negsuc 0) 2 2 4
    ∷ row 0 0 (negsuc 0) 3 2 5
    ∷ row 0 0 (negsuc 0) 3 2 6
    ∷ row 0 0 (negsuc 0) 3 2 7
    ∷ row 0 0 (negsuc 0) 3 2 8
    ∷ row 0 0 (negsuc 0) 3 2 9
    ∷ row 0 0 (negsuc 0) 0 3 2
    ∷ row 0 0 (negsuc 0) 1 3 3
    ∷ row 0 0 (negsuc 0) 2 3 4
    ∷ row 0 0 (negsuc 0) 3 3 5
    ∷ row 0 0 (negsuc 0) 3 3 6
    ∷ row 0 0 (negsuc 0) 3 3 7
    ∷ row 0 0 (negsuc 0) 3 3 8
    ∷ row 0 0 (negsuc 0) 3 3 9
    ∷ row 0 0 (negsuc 0) 0 4 2
    ∷ row 0 0 (negsuc 0) 1 4 3
    ∷ row 0 0 (negsuc 0) 2 4 4
    ∷ row 0 0 (negsuc 0) 3 4 5
    ∷ row 0 0 (negsuc 0) 3 4 6
    ∷ row 0 0 (negsuc 0) 3 4 7
    ∷ row 0 0 (negsuc 0) 3 4 8
    ∷ row 0 0 (negsuc 0) 3 4 9
    ∷ row 0 0 (negsuc 0) 0 5 2
    ∷ row 0 0 (negsuc 0) 1 5 3
    ∷ row 0 0 (negsuc 0) 2 5 4
    ∷ row 0 0 (negsuc 0) 3 5 5
    ∷ row 0 0 (negsuc 0) 3 5 6
    ∷ row 0 0 (negsuc 0) 3 5 7
    ∷ row 0 0 (negsuc 0) 3 5 8
    ∷ row 0 0 (negsuc 0) 3 5 9
    ∷ []
