-- ===== src/Tests/Choosing.antt =====
-- What the pool gives to a block.
use obsidion.Prelude.{◌≡◌, ◌≤◌, List, []}
use obsidion.Prelude.Result.{ok}
use obsidion.Mempool.{MempoolEntry, values}
use obsidion.Mempool.Select.{select}
use obsidion.Mempool.Select.Choice.{size_sum, IsInOrder, select_lem}
use obsidion.Tests.Fixtures.{platform, one_row}
use obsidion.Tests.Pool.{pool, signed_id}

select_lem_example :
    (chosen : List MempoolEntry) × (select platform 900 one_row pool ≡ ok chosen)
    × (size_sum chosen ≤ 900)
    × IsInOrder platform 900 one_row [] chosen
unfolding values
select_lem_example = select_lem platform 900 one_row pool ((_, signed_id), tt)
