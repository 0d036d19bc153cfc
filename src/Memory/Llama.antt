-- ===== src/Memory/Llama.antt =====
-- The end of memory.rs: a plan in the flags of llama.cpp, which moves whole blocks of experts.
use mo_earc.Common.{ℕ, ◌*◌, ◌/◌, min, Bool, not, ◌==◌, sub32, mul32, mul64}
use mo_earc.Common.Float.{Float}
use mo_earc.Common.Results.{ok, ◌>>=◌, ◌>>◌, refuse}
use mo_earc.Memory.Types.{
  DeviceMemory, ModelFootprint, Policy, Context, Allocation, Planned, invalid_model,
}
use mo_earc.Memory.Planner.{plan}

pub record BlockGeometry : Type 0 where
  pub moe_blocks : ℕ
  pub experts_per_block : ℕ

pub record LlamaSplit : Type 0 where
  pub n_cpu_moe : ℕ
  pub gpu_expert_blocks : ℕ
  pub moe_blocks : ℕ
  pub context_tokens : ℕ
  pub slots_used : ℕ
  pub slots_planned : ℕ
  pub slots_dropped_to_whole_blocks : ℕ
  pub expert_bytes_on_gpu : ℕ

unfoldable pub is_cpu_only_experts : LlamaSplit → Bool
is_cpu_only_experts s = s.gpu_expert_blocks == 0

unfoldable pub all_experts_on_host : BlockGeometry → ℕ → LlamaSplit
all_experts_on_host geom context_tokens = record {
  n_cpu_moe = geom.moe_blocks;
  gpu_expert_blocks = 0;
  moe_blocks = geom.moe_blocks;
  context_tokens = context_tokens;
  slots_used = 0;
  slots_planned = 0;
  slots_dropped_to_whole_blocks = 0;
  expert_bytes_on_gpu = 0;
}

-- The three checks of `llama_split`. The product is of two `u32` in a `u64`, which holds it.
unfoldable pub check_geometry : ModelFootprint → BlockGeometry → Planned (Unit {0})
check_geometry model geom = do
  refuse (geom.moe_blocks == 0) (invalid_model "moe_blocks is zero — not an MoE model")
  refuse (geom.experts_per_block == 0) (invalid_model "experts_per_block is zero")
  refuse (not (geom.moe_blocks * geom.experts_per_block == model.total_experts))
      (invalid_model "block geometry does not multiply out to the model's slot count")

-- What `llama_split` returns once the checks have passed.
unfoldable pub split_of : Allocation → ModelFootprint → BlockGeometry → LlamaSplit
split_of alloc model geom =
    let gpu = min (alloc.resident_experts / geom.experts_per_block) geom.moe_blocks in
    let used = mul32 gpu geom.experts_per_block in
    record {
      n_cpu_moe = sub32 geom.moe_blocks gpu;
      gpu_expert_blocks = gpu;
      moe_blocks = geom.moe_blocks;
      context_tokens = alloc.context_tokens;
      slots_used = used;
      slots_planned = alloc.resident_experts;
      slots_dropped_to_whole_blocks = sub32 alloc.resident_experts used;
      expert_bytes_on_gpu = mul64 model.per_expert_bytes used;
    }

unfoldable pub llama_split : Allocation → ModelFootprint → BlockGeometry → Planned LlamaSplit
llama_split alloc model geom = check_geometry model geom >> ok (split_of alloc model geom)

unfoldable pub plan_llama :
    (fl : Float)
    → DeviceMemory
    → ModelFootprint
    → BlockGeometry
    → Policy fl.F64
    → Context
    → Planned (Allocation × LlamaSplit)
plan_llama fl device model geom policy want = do
  alloc ← plan fl device model policy want
  split ← llama_split alloc model geom
  ok (alloc, split)
