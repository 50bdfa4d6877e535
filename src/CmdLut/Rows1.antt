-- ===== src/CmdLut/Rows1.antt =====
-- Lines 183 to 358 of internal/core/cmdlut.go: symbols 176 to 351 of CmdLut.
use go_brrr.Prelude.{List, [], ◌∷◌}
use go_brrr.Prelude.Int.{negsuc}
use go_brrr.CmdLut.Element.{CmdLutElement, row}

unfoldable pub rows_1 : List CmdLutElement
rows_1 =
    row 1 0 (negsuc 0) 0 6 2
    ∷ row 1 0 (negsuc 0) 1 6 3
    ∷ row 1 0 (negsuc 0) 2 6 4
    ∷ row 1 0 (negsuc 0) 3 6 5
    ∷ row 1 0 (negsuc 0) 3 6 6
    ∷ row 1 0 (negsuc 0) 3 6 7
    ∷ row 1 0 (negsuc 0) 3 6 8
    ∷ row 1 0 (negsuc 0) 3 6 9
    ∷ row 1 0 (negsuc 0) 0 8 2
    ∷ row 1 0 (negsuc 0) 1 8 3
    ∷ row 1 0 (negsuc 0) 2 8 4
    ∷ row 1 0 (negsuc 0) 3 8 5
    ∷ row 1 0 (negsuc 0) 3 8 6
    ∷ row 1 0 (negsuc 0) 3 8 7
    ∷ row 1 0 (negsuc 0) 3 8 8
    ∷ row 1 0 (negsuc 0) 3 8 9
    ∷ row 0 1 (negsuc 0) 3 0 10
    ∷ row 0 1 (negsuc 0) 3 0 12
    ∷ row 0 2 (negsuc 0) 3 0 14
    ∷ row 0 2 (negsuc 0) 3 0 18
    ∷ row 0 3 (negsuc 0) 3 0 22
    ∷ row 0 3 (negsuc 0) 3 0 30
    ∷ row 0 4 (negsuc 0) 3 0 38
    ∷ row 0 4 (negsuc 0) 3 0 54
    ∷ row 0 1 (negsuc 0) 3 1 10
    ∷ row 0 1 (negsuc 0) 3 1 12
    ∷ row 0 2 (negsuc 0) 3 1 14
    ∷ row 0 2 (negsuc 0) 3 1 18
    ∷ row 0 3 (negsuc 0) 3 1 22
    ∷ row 0 3 (negsuc 0) 3 1 30
    ∷ row 0 4 (negsuc 0) 3 1 38
    ∷ row 0 4 (negsuc 0) 3 1 54
    ∷ row 0 1 (negsuc 0) 3 2 10
    ∷ row 0 1 (negsuc 0) 3 2 12
    ∷ row 0 2 (negsuc 0) 3 2 14
    ∷ row 0 2 (negsuc 0) 3 2 18
    ∷ row 0 3 (negsuc 0) 3 2 22
    ∷ row 0 3 (negsuc 0) 3 2 30
    ∷ row 0 4 (negsuc 0) 3 2 38
    ∷ row 0 4 (negsuc 0) 3 2 54
    ∷ row 0 1 (negsuc 0) 3 3 10
    ∷ row 0 1 (negsuc 0) 3 3 12
    ∷ row 0 2 (negsuc 0) 3 3 14
    ∷ row 0 2 (negsuc 0) 3 3 18
    ∷ row 0 3 (negsuc 0) 3 3 22
    ∷ row 0 3 (negsuc 0) 3 3 30
    ∷ row 0 4 (negsuc 0) 3 3 38
    ∷ row 0 4 (negsuc 0) 3 3 54
    ∷ row 0 1 (negsuc 0) 3 4 10
    ∷ row 0 1 (negsuc 0) 3 4 12
    ∷ row 0 2 (negsuc 0) 3 4 14
    ∷ row 0 2 (negsuc 0) 3 4 18
    ∷ row 0 3 (negsuc 0) 3 4 22
    ∷ row 0 3 (negsuc 0) 3 4 30
    ∷ row 0 4 (negsuc 0) 3 4 38
    ∷ row 0 4 (negsuc 0) 3 4 54
    ∷ row 0 1 (negsuc 0) 3 5 10
    ∷ row 0 1 (negsuc 0) 3 5 12
    ∷ row 0 2 (negsuc 0) 3 5 14
    ∷ row 0 2 (negsuc 0) 3 5 18
    ∷ row 0 3 (negsuc 0) 3 5 22
    ∷ row 0 3 (negsuc 0) 3 5 30
    ∷ row 0 4 (negsuc 0) 3 5 38
    ∷ row 0 4 (negsuc 0) 3 5 54
    ∷ row 1 1 (negsuc 0) 3 6 10
    ∷ row 1 1 (negsuc 0) 3 6 12
    ∷ row 1 2 (negsuc 0) 3 6 14
    ∷ row 1 2 (negsuc 0) 3 6 18
    ∷ row 1 3 (negsuc 0) 3 6 22
    ∷ row 1 3 (negsuc 0) 3 6 30
    ∷ row 1 4 (negsuc 0) 3 6 38
    ∷ row 1 4 (negsuc 0) 3 6 54
    ∷ row 1 1 (negsuc 0) 3 8 10
    ∷ row 1 1 (negsuc 0) 3 8 12
    ∷ row 1 2 (negsuc 0) 3 8 14
    ∷ row 1 2 (negsuc 0) 3 8 18
    ∷ row 1 3 (negsuc 0) 3 8 22
    ∷ row 1 3 (negsuc 0) 3 8 30
    ∷ row 1 4 (negsuc 0) 3 8 38
    ∷ row 1 4 (negsuc 0) 3 8 54
    ∷ row 2 0 (negsuc 0) 0 10 2
    ∷ row 2 0 (negsuc 0) 1 10 3
    ∷ row 2 0 (negsuc 0) 2 10 4
    ∷ row 2 0 (negsuc 0) 3 10 5
    ∷ row 2 0 (negsuc 0) 3 10 6
    ∷ row 2 0 (negsuc 0) 3 10 7
    ∷ row 2 0 (negsuc 0) 3 10 8
    ∷ row 2 0 (negsuc 0) 3 10 9
    ∷ row 2 0 (negsuc 0) 0 14 2
    ∷ row 2 0 (negsuc 0) 1 14 3
    ∷ row 2 0 (negsuc 0) 2 14 4
    ∷ row 2 0 (negsuc 0) 3 14 5
    ∷ row 2 0 (negsuc 0) 3 14 6
    ∷ row 2 0 (negsuc 0) 3 14 7
    ∷ row 2 0 (negsuc 0) 3 14 8
    ∷ row 2 0 (negsuc 0) 3 14 9
    ∷ row 3 0 (negsuc 0) 0 18 2
    ∷ row 3 0 (negsuc 0) 1 18 3
    ∷ row 3 0 (negsuc 0) 2 18 4
    ∷ row 3 0 (negsuc 0) 3 18 5
    ∷ row 3 0 (negsuc 0) 3 18 6
    ∷ row 3 0 (negsuc 0) 3 18 7
    ∷ row 3 0 (negsuc 0) 3 18 8
    ∷ row 3 0 (negsuc 0) 3 18 9
    ∷ row 3 0 (negsuc 0) 0 26 2
    ∷ row 3 0 (negsuc 0) 1 26 3
    ∷ row 3 0 (negsuc 0) 2 26 4
    ∷ row 3 0 (negsuc 0) 3 26 5
    ∷ row 3 0 (negsuc 0) 3 26 6
    ∷ row 3 0 (negsuc 0) 3 26 7
    ∷ row 3 0 (negsuc 0) 3 26 8
    ∷ row 3 0 (negsuc 0) 3 26 9
    ∷ row 4 0 (negsuc 0) 0 34 2
    ∷ row 4 0 (negsuc 0) 1 34 3
    ∷ row 4 0 (negsuc 0) 2 34 4
    ∷ row 4 0 (negsuc 0) 3 34 5
    ∷ row 4 0 (negsuc 0) 3 34 6
    ∷ row 4 0 (negsuc 0) 3 34 7
    ∷ row 4 0 (negsuc 0) 3 34 8
    ∷ row 4 0 (negsuc 0) 3 34 9
    ∷ row 4 0 (negsuc 0) 0 50 2
    ∷ row 4 0 (negsuc 0) 1 50 3
    ∷ row 4 0 (negsuc 0) 2 50 4
    ∷ row 4 0 (negsuc 0) 3 50 5
    ∷ row 4 0 (negsuc 0) 3 50 6
    ∷ row 4 0 (negsuc 0) 3 50 7
    ∷ row 4 0 (negsuc 0) 3 50 8
    ∷ row 4 0 (negsuc 0) 3 50 9
    ∷ row 5 0 (negsuc 0) 0 66 2
    ∷ row 5 0 (negsuc 0) 1 66 3
    ∷ row 5 0 (negsuc 0) 2 66 4
    ∷ row 5 0 (negsuc 0) 3 66 5
    ∷ row 5 0 (negsuc 0) 3 66 6
    ∷ row 5 0 (negsuc 0) 3 66 7
    ∷ row 5 0 (negsuc 0) 3 66 8
    ∷ row 5 0 (negsuc 0) 3 66 9
    ∷ row 5 0 (negsuc 0) 0 98 2
    ∷ row 5 0 (negsuc 0) 1 98 3
    ∷ row 5 0 (negsuc 0) 2 98 4
    ∷ row 5 0 (negsuc 0) 3 98 5
    ∷ row 5 0 (negsuc 0) 3 98 6
    ∷ row 5 0 (negsuc 0) 3 98 7
    ∷ row 5 0 (negsuc 0) 3 98 8
    ∷ row 5 0 (negsuc 0) 3 98 9
    ∷ row 2 1 (negsuc 0) 3 10 10
    ∷ row 2 1 (negsuc 0) 3 10 12
    ∷ row 2 2 (negsuc 0) 3 10 14
    ∷ row 2 2 (negsuc 0) 3 10 18
    ∷ row 2 3 (negsuc 0) 3 10 22
    ∷ row 2 3 (negsuc 0) 3 10 30
    ∷ row 2 4 (negsuc 0) 3 10 38
    ∷ row 2 4 (negsuc 0) 3 10 54
    ∷ row 2 1 (negsuc 0) 3 14 10
    ∷ row 2 1 (negsuc 0) 3 14 12
    ∷ row 2 2 (negsuc 0) 3 14 14
    ∷ row 2 2 (negsuc 0) 3 14 18
    ∷ row 2 3 (negsuc 0) 3 14 22
    ∷ row 2 3 (negsuc 0) 3 14 30
    ∷ row 2 4 (negsuc 0) 3 14 38
    ∷ row 2 4 (negsuc 0) 3 14 54
    ∷ row 3 1 (negsuc 0) 3 18 10
    ∷ row 3 1 (negsuc 0) 3 18 12
    ∷ row 3 2 (negsuc 0) 3 18 14
    ∷ row 3 2 (negsuc 0) 3 18 18
    ∷ row 3 3 (negsuc 0) 3 18 22
    ∷ row 3 3 (negsuc 0) 3 18 30
    ∷ row 3 4 (negsuc 0) 3 18 38
    ∷ row 3 4 (negsuc 0) 3 18 54
    ∷ row 3 1 (negsuc 0) 3 26 10
    ∷ row 3 1 (negsuc 0) 3 26 12
    ∷ row 3 2 (negsuc 0) 3 26 14
    ∷ row 3 2 (negsuc 0) 3 26 18
    ∷ row 3 3 (negsuc 0) 3 26 22
    ∷ row 3 3 (negsuc 0) 3 26 30
    ∷ row 3 4 (negsuc 0) 3 26 38
    ∷ row 3 4 (negsuc 0) 3 26 54
    ∷ []
