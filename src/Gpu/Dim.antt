-- ===== src/Gpu/Dim.antt =====
-- gpu/gpu.go: extents, positions and flat indices (Dim, D1, D2, D3, count, flat, coord), and the
-- position built-ins of Ctx. An extent is over ℕ here: run_cpu turns away every other extent before
-- a position is computed. The products are taken to fit the host's 64-bit int.
use simtgo.Base.{ℕ, suc, ◌+◌, ◌*◌, ◌/◌, ◌%◌, ◌<◌, ◌≡◌, refl, Bool, arith, ltb, ◌&&◌}
pub mod Laws

-- An extent or a position, one number per axis.
pub record Dim : Type 0 where
  pub x : ℕ
  pub y : ℕ
  pub z : ℕ

abbrev pub d1 : ℕ → Dim
d1 x = record { x = x; y = 1; z = 1 }

abbrev pub d2 : ℕ → ℕ → Dim
d2 x y = record { x = x; y = y; z = 1 }

abbrev pub d3 : ℕ → ℕ → ℕ → Dim
d3 x y z = record { x = x; y = y; z = z }

unfoldable pub count : Dim → ℕ
count d = d.x * d.y * d.z

unfoldable pub flat : Dim → Dim → ℕ
flat p extent = p.x + extent.x * (p.y + extent.y * p.z)

unfoldable pub coord : Dim → ℕ → Dim
coord d i = record { x = i % d.x; y = (i / d.x) % d.y; z = i / (d.x * d.y) }

-- The position of a thread in its launch: the four extents that Ctx carries.
pub record Place : Type 0 where
  pub tid : Dim
  pub bid : Dim
  pub bdim : Dim
  pub gdim : Dim

unfoldable pub thread_idx : Place → ℕ
thread_idx c = c.tid.x

unfoldable pub global_id : Place → ℕ
global_id c = c.bid.x * c.bdim.x + c.tid.x

unfoldable pub global_id_y : Place → ℕ
global_id_y c = c.bid.y * c.bdim.y + c.tid.y

unfoldable pub global_id_z : Place → ℕ
global_id_z c = c.bid.z * c.bdim.z + c.tid.z

-- The place that runBlock gives thread t of block b.
unfoldable pub place : Dim → Dim → ℕ → ℕ → Place
place grid block b t = record { tid = coord block t; bid = coord grid b; bdim = block; gdim = grid }

-- A position that lies within an extent, on every axis.
pub record IsWithin (p extent : Dim) : Type 0 where
  pub x_lt : p.x < extent.x
  pub y_lt : p.y < extent.y
  pub z_lt : p.z < extent.z
