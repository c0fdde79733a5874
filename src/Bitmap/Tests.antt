-- ===== src/Bitmap/Tests.antt =====
-- A bitmap of 200 keys with one key in its second word.
use rm_uniswap.Prelude.{arith, true, false}
use rm_uniswap.Bitmap.{HierBitmap, new_bitmap, set, remove}
use rm_uniswap.Bitmap.Fresh.{new_bitmap-IsWell}
use rm_uniswap.Bitmap.SearchDown.{AreNearest, searches-AreNearest}
use rm_uniswap.Bitmap.Update.{Updates, set-Updates, remove-Updates}
use rm_uniswap.Bitmap.Well.{IsWell}

abbrev with_one : HierBitmap
with_one = (set (new_bitmap 200) 70).0

with_one-IsWell : IsWell with_one
with_one-IsWell = (set-Updates (new_bitmap 200) (new_bitmap-IsWell 200 (omega arith)).0 70).well

set-Updates_example : Updates (new_bitmap 200) 70 true (set (new_bitmap 200) 70)
set-Updates_example = set-Updates (new_bitmap 200) (new_bitmap-IsWell 200 (omega arith)).0 70

remove-Updates_example : Updates with_one 70 false (remove with_one 70)
remove-Updates_example = remove-Updates with_one with_one-IsWell 70

searches-AreNearest_example : AreNearest with_one 130
searches-AreNearest_example = searches-AreNearest with_one with_one-IsWell 130
