-- ===== src/Cachelab/Trans/Tests.antt =====
-- Runs of the transposes, and the theorems at them.
use git_sty.Base.{◌+◌, ◌*◌, ◌≡◌, refl}
use git_sty.Cachelab.Trans.{Matrix, trans, transpose_submit, for_loop, put}
use git_sty.Cachelab.Trans.Correct.{transpose_submit_lem}

abbrev numbers : Matrix
numbers i j = 100 * i + j

abbrev zeros : Matrix
zeros i j = 0

trans_runs : trans 2 3 numbers zeros 1 2 ≡ 201
unfolding trans for_loop put
trans_runs = refl

transpose_submit_lem_example : transpose_submit 32 32 numbers zeros 3 7 ≡ 703
transpose_submit_lem_example = transpose_submit_lem 32 32 numbers zeros 3 7
