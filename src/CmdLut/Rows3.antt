-- ===== src/CmdLut/Rows3.antt =====
-- Lines 535 to 710 of internal/core/cmdlut.go: symbols 528 to 703 of CmdLut.
use go_brrr.Prelude.{List, [], ◌∷◌}
use go_brrr.Prelude.Int.{negsuc}
use go_brrr.CmdLut.Element.{CmdLutElement, row}

unfoldable pub rows_3 : List CmdLutElement
rows_3 =
    row 3 5 (negsuc 0) 3 18 70
    ∷ row 3 5 (negsuc 0) 3 18 102
    ∷ row 3 6 (negsuc 0) 3 18 134
    ∷ row 3 7 (negsuc 0) 3 18 198
    ∷ row 3 8 (negsuc 0) 3 18 326
    ∷ row 3 9 (negsuc 0) 3 18 582
    ∷ row 3 10 (negsuc 0) 3 18 1094
    ∷ row 3 24 (negsuc 0) 3 18 2118
    ∷ row 3 5 (negsuc 0) 3 26 70
    ∷ row 3 5 (negsuc 0) 3 26 102
    ∷ row 3 6 (negsuc 0) 3 26 134
    ∷ row 3 7 (negsuc 0) 3 26 198
    ∷ row 3 8 (negsuc 0) 3 26 326
    ∷ row 3 9 (negsuc 0) 3 26 582
    ∷ row 3 10 (negsuc 0) 3 26 1094
    ∷ row 3 24 (negsuc 0) 3 26 2118
    ∷ row 4 5 (negsuc 0) 3 34 70
    ∷ row 4 5 (negsuc 0) 3 34 102
    ∷ row 4 6 (negsuc 0) 3 34 134
    ∷ row 4 7 (negsuc 0) 3 34 198
    ∷ row 4 8 (negsuc 0) 3 34 326
    ∷ row 4 9 (negsuc 0) 3 34 582
    ∷ row 4 10 (negsuc 0) 3 34 1094
    ∷ row 4 24 (negsuc 0) 3 34 2118
    ∷ row 4 5 (negsuc 0) 3 50 70
    ∷ row 4 5 (negsuc 0) 3 50 102
    ∷ row 4 6 (negsuc 0) 3 50 134
    ∷ row 4 7 (negsuc 0) 3 50 198
    ∷ row 4 8 (negsuc 0) 3 50 326
    ∷ row 4 9 (negsuc 0) 3 50 582
    ∷ row 4 10 (negsuc 0) 3 50 1094
    ∷ row 4 24 (negsuc 0) 3 50 2118
    ∷ row 5 5 (negsuc 0) 3 66 70
    ∷ row 5 5 (negsuc 0) 3 66 102
    ∷ row 5 6 (negsuc 0) 3 66 134
    ∷ row 5 7 (negsuc 0) 3 66 198
    ∷ row 5 8 (negsuc 0) 3 66 326
    ∷ row 5 9 (negsuc 0) 3 66 582
    ∷ row 5 10 (negsuc 0) 3 66 1094
    ∷ row 5 24 (negsuc 0) 3 66 2118
    ∷ row 5 5 (negsuc 0) 3 98 70
    ∷ row 5 5 (negsuc 0) 3 98 102
    ∷ row 5 6 (negsuc 0) 3 98 134
    ∷ row 5 7 (negsuc 0) 3 98 198
    ∷ row 5 8 (negsuc 0) 3 98 326
    ∷ row 5 9 (negsuc 0) 3 98 582
    ∷ row 5 10 (negsuc 0) 3 98 1094
    ∷ row 5 24 (negsuc 0) 3 98 2118
    ∷ row 6 1 (negsuc 0) 3 130 10
    ∷ row 6 1 (negsuc 0) 3 130 12
    ∷ row 6 2 (negsuc 0) 3 130 14
    ∷ row 6 2 (negsuc 0) 3 130 18
    ∷ row 6 3 (negsuc 0) 3 130 22
    ∷ row 6 3 (negsuc 0) 3 130 30
    ∷ row 6 4 (negsuc 0) 3 130 38
    ∷ row 6 4 (negsuc 0) 3 130 54
    ∷ row 7 1 (negsuc 0) 3 194 10
    ∷ row 7 1 (negsuc 0) 3 194 12
    ∷ row 7 2 (negsuc 0) 3 194 14
    ∷ row 7 2 (negsuc 0) 3 194 18
    ∷ row 7 3 (negsuc 0) 3 194 22
    ∷ row 7 3 (negsuc 0) 3 194 30
    ∷ row 7 4 (negsuc 0) 3 194 38
    ∷ row 7 4 (negsuc 0) 3 194 54
    ∷ row 8 1 (negsuc 0) 3 322 10
    ∷ row 8 1 (negsuc 0) 3 322 12
    ∷ row 8 2 (negsuc 0) 3 322 14
    ∷ row 8 2 (negsuc 0) 3 322 18
    ∷ row 8 3 (negsuc 0) 3 322 22
    ∷ row 8 3 (negsuc 0) 3 322 30
    ∷ row 8 4 (negsuc 0) 3 322 38
    ∷ row 8 4 (negsuc 0) 3 322 54
    ∷ row 9 1 (negsuc 0) 3 578 10
    ∷ row 9 1 (negsuc 0) 3 578 12
    ∷ row 9 2 (negsuc 0) 3 578 14
    ∷ row 9 2 (negsuc 0) 3 578 18
    ∷ row 9 3 (negsuc 0) 3 578 22
    ∷ row 9 3 (negsuc 0) 3 578 30
    ∷ row 9 4 (negsuc 0) 3 578 38
    ∷ row 9 4 (negsuc 0) 3 578 54
    ∷ row 10 1 (negsuc 0) 3 1090 10
    ∷ row 10 1 (negsuc 0) 3 1090 12
    ∷ row 10 2 (negsuc 0) 3 1090 14
    ∷ row 10 2 (negsuc 0) 3 1090 18
    ∷ row 10 3 (negsuc 0) 3 1090 22
    ∷ row 10 3 (negsuc 0) 3 1090 30
    ∷ row 10 4 (negsuc 0) 3 1090 38
    ∷ row 10 4 (negsuc 0) 3 1090 54
    ∷ row 12 1 (negsuc 0) 3 2114 10
    ∷ row 12 1 (negsuc 0) 3 2114 12
    ∷ row 12 2 (negsuc 0) 3 2114 14
    ∷ row 12 2 (negsuc 0) 3 2114 18
    ∷ row 12 3 (negsuc 0) 3 2114 22
    ∷ row 12 3 (negsuc 0) 3 2114 30
    ∷ row 12 4 (negsuc 0) 3 2114 38
    ∷ row 12 4 (negsuc 0) 3 2114 54
    ∷ row 14 1 (negsuc 0) 3 6210 10
    ∷ row 14 1 (negsuc 0) 3 6210 12
    ∷ row 14 2 (negsuc 0) 3 6210 14
    ∷ row 14 2 (negsuc 0) 3 6210 18
    ∷ row 14 3 (negsuc 0) 3 6210 22
    ∷ row 14 3 (negsuc 0) 3 6210 30
    ∷ row 14 4 (negsuc 0) 3 6210 38
    ∷ row 14 4 (negsuc 0) 3 6210 54
    ∷ row 24 1 (negsuc 0) 3 22594 10
    ∷ row 24 1 (negsuc 0) 3 22594 12
    ∷ row 24 2 (negsuc 0) 3 22594 14
    ∷ row 24 2 (negsuc 0) 3 22594 18
    ∷ row 24 3 (negsuc 0) 3 22594 22
    ∷ row 24 3 (negsuc 0) 3 22594 30
    ∷ row 24 4 (negsuc 0) 3 22594 38
    ∷ row 24 4 (negsuc 0) 3 22594 54
    ∷ row 6 5 (negsuc 0) 3 130 70
    ∷ row 6 5 (negsuc 0) 3 130 102
    ∷ row 6 6 (negsuc 0) 3 130 134
    ∷ row 6 7 (negsuc 0) 3 130 198
    ∷ row 6 8 (negsuc 0) 3 130 326
    ∷ row 6 9 (negsuc 0) 3 130 582
    ∷ row 6 10 (negsuc 0) 3 130 1094
    ∷ row 6 24 (negsuc 0) 3 130 2118
    ∷ row 7 5 (negsuc 0) 3 194 70
    ∷ row 7 5 (negsuc 0) 3 194 102
    ∷ row 7 6 (negsuc 0) 3 194 134
    ∷ row 7 7 (negsuc 0) 3 194 198
    ∷ row 7 8 (negsuc 0) 3 194 326
    ∷ row 7 9 (negsuc 0) 3 194 582
    ∷ row 7 10 (negsuc 0) 3 194 1094
    ∷ row 7 24 (negsuc 0) 3 194 2118
    ∷ row 8 5 (negsuc 0) 3 322 70
    ∷ row 8 5 (negsuc 0) 3 322 102
    ∷ row 8 6 (negsuc 0) 3 322 134
    ∷ row 8 7 (negsuc 0) 3 322 198
    ∷ row 8 8 (negsuc 0) 3 322 326
    ∷ row 8 9 (negsuc 0) 3 322 582
    ∷ row 8 10 (negsuc 0) 3 322 1094
    ∷ row 8 24 (negsuc 0) 3 322 2118
    ∷ row 9 5 (negsuc 0) 3 578 70
    ∷ row 9 5 (negsuc 0) 3 578 102
    ∷ row 9 6 (negsuc 0) 3 578 134
    ∷ row 9 7 (negsuc 0) 3 578 198
    ∷ row 9 8 (negsuc 0) 3 578 326
    ∷ row 9 9 (negsuc 0) 3 578 582
    ∷ row 9 10 (negsuc 0) 3 578 1094
    ∷ row 9 24 (negsuc 0) 3 578 2118
    ∷ row 10 5 (negsuc 0) 3 1090 70
    ∷ row 10 5 (negsuc 0) 3 1090 102
    ∷ row 10 6 (negsuc 0) 3 1090 134
    ∷ row 10 7 (negsuc 0) 3 1090 198
    ∷ row 10 8 (negsuc 0) 3 1090 326
    ∷ row 10 9 (negsuc 0) 3 1090 582
    ∷ row 10 10 (negsuc 0) 3 1090 1094
    ∷ row 10 24 (negsuc 0) 3 1090 2118
    ∷ row 12 5 (negsuc 0) 3 2114 70
    ∷ row 12 5 (negsuc 0) 3 2114 102
    ∷ row 12 6 (negsuc 0) 3 2114 134
    ∷ row 12 7 (negsuc 0) 3 2114 198
    ∷ row 12 8 (negsuc 0) 3 2114 326
    ∷ row 12 9 (negsuc 0) 3 2114 582
    ∷ row 12 10 (negsuc 0) 3 2114 1094
    ∷ row 12 24 (negsuc 0) 3 2114 2118
    ∷ row 14 5 (negsuc 0) 3 6210 70
    ∷ row 14 5 (negsuc 0) 3 6210 102
    ∷ row 14 6 (negsuc 0) 3 6210 134
    ∷ row 14 7 (negsuc 0) 3 6210 198
    ∷ row 14 8 (negsuc 0) 3 6210 326
    ∷ row 14 9 (negsuc 0) 3 6210 582
    ∷ row 14 10 (negsuc 0) 3 6210 1094
    ∷ row 14 24 (negsuc 0) 3 6210 2118
    ∷ row 24 5 (negsuc 0) 3 22594 70
    ∷ row 24 5 (negsuc 0) 3 22594 102
    ∷ row 24 6 (negsuc 0) 3 22594 134
    ∷ row 24 7 (negsuc 0) 3 22594 198
    ∷ row 24 8 (negsuc 0) 3 22594 326
    ∷ row 24 9 (negsuc 0) 3 22594 582
    ∷ row 24 10 (negsuc 0) 3 22594 1094
    ∷ row 24 24 (negsuc 0) 3 22594 2118
    ∷ []
