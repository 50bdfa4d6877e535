-- ===== src/CmdLut/Rows2.antt =====
-- Lines 359 to 534 of internal/core/cmdlut.go: symbols 352 to 527 of CmdLut.
use go_brrr.Prelude.{List, [], ◌∷◌}
use go_brrr.Prelude.Int.{negsuc}
use go_brrr.CmdLut.Element.{CmdLutElement, row}

unfoldable pub rows_2 : List CmdLutElement
rows_2 =
    row 4 1 (negsuc 0) 3 34 10
    ∷ row 4 1 (negsuc 0) 3 34 12
    ∷ row 4 2 (negsuc 0) 3 34 14
    ∷ row 4 2 (negsuc 0) 3 34 18
    ∷ row 4 3 (negsuc 0) 3 34 22
    ∷ row 4 3 (negsuc 0) 3 34 30
    ∷ row 4 4 (negsuc 0) 3 34 38
    ∷ row 4 4 (negsuc 0) 3 34 54
    ∷ row 4 1 (negsuc 0) 3 50 10
    ∷ row 4 1 (negsuc 0) 3 50 12
    ∷ row 4 2 (negsuc 0) 3 50 14
    ∷ row 4 2 (negsuc 0) 3 50 18
    ∷ row 4 3 (negsuc 0) 3 50 22
    ∷ row 4 3 (negsuc 0) 3 50 30
    ∷ row 4 4 (negsuc 0) 3 50 38
    ∷ row 4 4 (negsuc 0) 3 50 54
    ∷ row 5 1 (negsuc 0) 3 66 10
    ∷ row 5 1 (negsuc 0) 3 66 12
    ∷ row 5 2 (negsuc 0) 3 66 14
    ∷ row 5 2 (negsuc 0) 3 66 18
    ∷ row 5 3 (negsuc 0) 3 66 22
    ∷ row 5 3 (negsuc 0) 3 66 30
    ∷ row 5 4 (negsuc 0) 3 66 38
    ∷ row 5 4 (negsuc 0) 3 66 54
    ∷ row 5 1 (negsuc 0) 3 98 10
    ∷ row 5 1 (negsuc 0) 3 98 12
    ∷ row 5 2 (negsuc 0) 3 98 14
    ∷ row 5 2 (negsuc 0) 3 98 18
    ∷ row 5 3 (negsuc 0) 3 98 22
    ∷ row 5 3 (negsuc 0) 3 98 30
    ∷ row 5 4 (negsuc 0) 3 98 38
    ∷ row 5 4 (negsuc 0) 3 98 54
    ∷ row 0 5 (negsuc 0) 3 0 70
    ∷ row 0 5 (negsuc 0) 3 0 102
    ∷ row 0 6 (negsuc 0) 3 0 134
    ∷ row 0 7 (negsuc 0) 3 0 198
    ∷ row 0 8 (negsuc 0) 3 0 326
    ∷ row 0 9 (negsuc 0) 3 0 582
    ∷ row 0 10 (negsuc 0) 3 0 1094
    ∷ row 0 24 (negsuc 0) 3 0 2118
    ∷ row 0 5 (negsuc 0) 3 1 70
    ∷ row 0 5 (negsuc 0) 3 1 102
    ∷ row 0 6 (negsuc 0) 3 1 134
    ∷ row 0 7 (negsuc 0) 3 1 198
    ∷ row 0 8 (negsuc 0) 3 1 326
    ∷ row 0 9 (negsuc 0) 3 1 582
    ∷ row 0 10 (negsuc 0) 3 1 1094
    ∷ row 0 24 (negsuc 0) 3 1 2118
    ∷ row 0 5 (negsuc 0) 3 2 70
    ∷ row 0 5 (negsuc 0) 3 2 102
    ∷ row 0 6 (negsuc 0) 3 2 134
    ∷ row 0 7 (negsuc 0) 3 2 198
    ∷ row 0 8 (negsuc 0) 3 2 326
    ∷ row 0 9 (negsuc 0) 3 2 582
    ∷ row 0 10 (negsuc 0) 3 2 1094
    ∷ row 0 24 (negsuc 0) 3 2 2118
    ∷ row 0 5 (negsuc 0) 3 3 70
    ∷ row 0 5 (negsuc 0) 3 3 102
    ∷ row 0 6 (negsuc 0) 3 3 134
    ∷ row 0 7 (negsuc 0) 3 3 198
    ∷ row 0 8 (negsuc 0) 3 3 326
    ∷ row 0 9 (negsuc 0) 3 3 582
    ∷ row 0 10 (negsuc 0) 3 3 1094
    ∷ row 0 24 (negsuc 0) 3 3 2118
    ∷ row 0 5 (negsuc 0) 3 4 70
    ∷ row 0 5 (negsuc 0) 3 4 102
    ∷ row 0 6 (negsuc 0) 3 4 134
    ∷ row 0 7 (negsuc 0) 3 4 198
    ∷ row 0 8 (negsuc 0) 3 4 326
    ∷ row 0 9 (negsuc 0) 3 4 582
    ∷ row 0 10 (negsuc 0) 3 4 1094
    ∷ row 0 24 (negsuc 0) 3 4 2118
    ∷ row 0 5 (negsuc 0) 3 5 70
    ∷ row 0 5 (negsuc 0) 3 5 102
    ∷ row 0 6 (negsuc 0) 3 5 134
    ∷ row 0 7 (negsuc 0) 3 5 198
    ∷ row 0 8 (negsuc 0) 3 5 326
    ∷ row 0 9 (negsuc 0) 3 5 582
    ∷ row 0 10 (negsuc 0) 3 5 1094
    ∷ row 0 24 (negsuc 0) 3 5 2118
    ∷ row 1 5 (negsuc 0) 3 6 70
    ∷ row 1 5 (negsuc 0) 3 6 102
    ∷ row 1 6 (negsuc 0) 3 6 134
    ∷ row 1 7 (negsuc 0) 3 6 198
    ∷ row 1 8 (negsuc 0) 3 6 326
    ∷ row 1 9 (negsuc 0) 3 6 582
    ∷ row 1 10 (negsuc 0) 3 6 1094
    ∷ row 1 24 (negsuc 0) 3 6 2118
    ∷ row 1 5 (negsuc 0) 3 8 70
    ∷ row 1 5 (negsuc 0) 3 8 102
    ∷ row 1 6 (negsuc 0) 3 8 134
    ∷ row 1 7 (negsuc 0) 3 8 198
    ∷ row 1 8 (negsuc 0) 3 8 326
    ∷ row 1 9 (negsuc 0) 3 8 582
    ∷ row 1 10 (negsuc 0) 3 8 1094
    ∷ row 1 24 (negsuc 0) 3 8 2118
    ∷ row 6 0 (negsuc 0) 0 130 2
    ∷ row 6 0 (negsuc 0) 1 130 3
    ∷ row 6 0 (negsuc 0) 2 130 4
    ∷ row 6 0 (negsuc 0) 3 130 5
    ∷ row 6 0 (negsuc 0) 3 130 6
    ∷ row 6 0 (negsuc 0) 3 130 7
    ∷ row 6 0 (negsuc 0) 3 130 8
    ∷ row 6 0 (negsuc 0) 3 130 9
    ∷ row 7 0 (negsuc 0) 0 194 2
    ∷ row 7 0 (negsuc 0) 1 194 3
    ∷ row 7 0 (negsuc 0) 2 194 4
    ∷ row 7 0 (negsuc 0) 3 194 5
    ∷ row 7 0 (negsuc 0) 3 194 6
    ∷ row 7 0 (negsuc 0) 3 194 7
    ∷ row 7 0 (negsuc 0) 3 194 8
    ∷ row 7 0 (negsuc 0) 3 194 9
    ∷ row 8 0 (negsuc 0) 0 322 2
    ∷ row 8 0 (negsuc 0) 1 322 3
    ∷ row 8 0 (negsuc 0) 2 322 4
    ∷ row 8 0 (negsuc 0) 3 322 5
    ∷ row 8 0 (negsuc 0) 3 322 6
    ∷ row 8 0 (negsuc 0) 3 322 7
    ∷ row 8 0 (negsuc 0) 3 322 8
    ∷ row 8 0 (negsuc 0) 3 322 9
    ∷ row 9 0 (negsuc 0) 0 578 2
    ∷ row 9 0 (negsuc 0) 1 578 3
    ∷ row 9 0 (negsuc 0) 2 578 4
    ∷ row 9 0 (negsuc 0) 3 578 5
    ∷ row 9 0 (negsuc 0) 3 578 6
    ∷ row 9 0 (negsuc 0) 3 578 7
    ∷ row 9 0 (negsuc 0) 3 578 8
    ∷ row 9 0 (negsuc 0) 3 578 9
    ∷ row 10 0 (negsuc 0) 0 1090 2
    ∷ row 10 0 (negsuc 0) 1 1090 3
    ∷ row 10 0 (negsuc 0) 2 1090 4
    ∷ row 10 0 (negsuc 0) 3 1090 5
    ∷ row 10 0 (negsuc 0) 3 1090 6
    ∷ row 10 0 (negsuc 0) 3 1090 7
    ∷ row 10 0 (negsuc 0) 3 1090 8
    ∷ row 10 0 (negsuc 0) 3 1090 9
    ∷ row 12 0 (negsuc 0) 0 2114 2
    ∷ row 12 0 (negsuc 0) 1 2114 3
    ∷ row 12 0 (negsuc 0) 2 2114 4
    ∷ row 12 0 (negsuc 0) 3 2114 5
    ∷ row 12 0 (negsuc 0) 3 2114 6
    ∷ row 12 0 (negsuc 0) 3 2114 7
    ∷ row 12 0 (negsuc 0) 3 2114 8
    ∷ row 12 0 (negsuc 0) 3 2114 9
    ∷ row 14 0 (negsuc 0) 0 6210 2
    ∷ row 14 0 (negsuc 0) 1 6210 3
    ∷ row 14 0 (negsuc 0) 2 6210 4
    ∷ row 14 0 (negsuc 0) 3 6210 5
    ∷ row 14 0 (negsuc 0) 3 6210 6
    ∷ row 14 0 (negsuc 0) 3 6210 7
    ∷ row 14 0 (negsuc 0) 3 6210 8
    ∷ row 14 0 (negsuc 0) 3 6210 9
    ∷ row 24 0 (negsuc 0) 0 22594 2
    ∷ row 24 0 (negsuc 0) 1 22594 3
    ∷ row 24 0 (negsuc 0) 2 22594 4
    ∷ row 24 0 (negsuc 0) 3 22594 5
    ∷ row 24 0 (negsuc 0) 3 22594 6
    ∷ row 24 0 (negsuc 0) 3 22594 7
    ∷ row 24 0 (negsuc 0) 3 22594 8
    ∷ row 24 0 (negsuc 0) 3 22594 9
    ∷ row 2 5 (negsuc 0) 3 10 70
    ∷ row 2 5 (negsuc 0) 3 10 102
    ∷ row 2 6 (negsuc 0) 3 10 134
    ∷ row 2 7 (negsuc 0) 3 10 198
    ∷ row 2 8 (negsuc 0) 3 10 326
    ∷ row 2 9 (negsuc 0) 3 10 582
    ∷ row 2 10 (negsuc 0) 3 10 1094
    ∷ row 2 24 (negsuc 0) 3 10 2118
    ∷ row 2 5 (negsuc 0) 3 14 70
    ∷ row 2 5 (negsuc 0) 3 14 102
    ∷ row 2 6 (negsuc 0) 3 14 134
    ∷ row 2 7 (negsuc 0) 3 14 198
    ∷ row 2 8 (negsuc 0) 3 14 326
    ∷ row 2 9 (negsuc 0) 3 14 582
    ∷ row 2 10 (negsuc 0) 3 14 1094
    ∷ row 2 24 (negsuc 0) 3 14 2118
    ∷ []
