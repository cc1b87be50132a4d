-- ===== src/Tensor/Examples.antt =====
-- Tensors of a decode step, and `same_desc` on them.
use recurlocal.Base.{true, false, ◌≡◌, refl}
use recurlocal.Tensor.{TensorDesc, no_desc, kv_cache, model_weight, recurrent_state, same_desc}

abbrev pub weight : TensorDesc
weight = record no_desc { ptr = 4096; bytes = 600; role = model_weight; model_global = true }

abbrev pub state : TensorDesc
state = record no_desc { ptr = 8192; bytes = 100; role = recurrent_state; mutable_data = true }

abbrev pub cache : TensorDesc
cache = record no_desc { ptr = 16_384; bytes = 300; role = kv_cache; request_local = true }

different : same_desc weight state ≡ false
unfolding same_desc
different = refl
