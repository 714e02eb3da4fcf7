-- ===== src/BucketProps/ModFun.antt =====
-- The module and function names of src/riak_bucketprops.c.
use riak_c_client.Base.{true, false, Option, none, some}
use riak_c_client.Error.{RiakError, eriak_ok, eriak_out_of_memory}
use riak_c_client.Memory.{Cmd, fault, pure, ◌>>=◌, ◌>>◌, Config, cfg_malloc, free_if}
use riak_c_client.Binary
use riak_c_client.Binary.{Binary, copy_from_pb}
use riak_c_client.Object.Copy.{bin_to_pb, set_plain}
use riak_c_client.BucketProps.Types.{ModFun, PbModFun, sizeof_modfun, sizeof_pb_modfun}

abbrev pub no_modfun : ModFun
no_modfun = record { mod_name = none; function = none }

-- `riak_modfun_new`
unfoldable pub modfun_new : Config → Cmd (Option ModFun)
modfun_new cfg = do
  got ← cfg_malloc cfg sizeof_modfun
  elim got [ false ↦ pure none | true ↦ pure (some no_modfun) ]

-- The names of `riak_modfun_deep_new`, and what is given back where one has no memory.
unfoldable pub modfun_names : Config → ModFun → Cmd (Option ModFun)
modfun_names cfg from = do
  m ← Binary.copy cfg from.mod_name
  elim m [
    | none ↦ do free_if true; pure none
    | some mod_name ↦ do
      f ← Binary.copy cfg from.function
      elim f [
        | none ↦ do Binary.free (some mod_name); free_if true; pure none
        | some function ↦
            pure (some (record { mod_name = some mod_name; function = some function }))
      ]
  ]

-- `riak_modfun_deep_new`; NULL is read once there is memory.
unfoldable pub modfun_deep_new : Config → Option ModFun → Cmd (Option ModFun)
modfun_deep_new cfg from = do
  fun ← modfun_new cfg
  elim fun [
    | none ↦ pure none
    | some _ ↦ elim from [ none ↦ λ h. fault | some x ↦ modfun_names cfg x ]
  ]

-- `riak_modfun_copy_to_pb`: the error, and what the target is that was NULL before. Without a function
-- nothing is written. The block is not initialised.
unfoldable pub modfun_copy_to_pb : Config → Option ModFun → Cmd (RiakError × Option PbModFun)
modfun_copy_to_pb cfg none = pure (eriak_ok, none)
modfun_copy_to_pb cfg (some mod_fun) = do
  got ← cfg_malloc cfg sizeof_pb_modfun
  elim got [
    | false ↦ pure (eriak_out_of_memory, none)
    | true ↦ do
      m ← bin_to_pb mod_fun.mod_name
      f ← bin_to_pb mod_fun.function
      pure (eriak_ok, some (record { base = false; mod_name = m; function = f }))
  ]

-- `riak_modfun_copy_from_pb`: the test that follows the allocation is of the source, so a missing function
-- is an error that leaves a block behind, and without memory a name is stored through NULL.
unfoldable pub modfun_copy_from_pb : Config → Option PbModFun → Cmd (RiakError × Option ModFun)
modfun_copy_from_pb cfg pbmod_fun = do
  got ← cfg_malloc cfg sizeof_modfun
  elim pbmod_fun [
    | none ↦ pure (eriak_out_of_memory, none)
    | some pb ↦ do
      m ← copy_from_pb cfg pb.mod_name
      elim got [
        | false ↦ λ h. fault
        | true ↦ elim m [
          | none ↦ pure (eriak_out_of_memory, none)
          | some mod_name ↦ do
            f ← copy_from_pb cfg pb.function
            elim f [
              | none ↦ pure (eriak_out_of_memory, none)
              | some function ↦
                  pure
                    (eriak_ok, some (record { mod_name = some mod_name; function = some function }))
            ]
        ]
      ]
  ]

-- `riak_modfun_free_pb`, of a pointer that is not NULL or of one that is.
unfoldable pub modfun_free_pb : Option PbModFun → Cmd (Unit {0})
modfun_free_pb none = pure tt
modfun_free_pb (some _) = free_if true

-- `riak_modfun_free`; NULL is read.
unfoldable pub modfun_free : Option ModFun → Cmd (Unit {0})
modfun_free none = λ h. fault
modfun_free (some mod_fun) = do
  Binary.free mod_fun.mod_name
  Binary.free mod_fun.function
  free_if true

-- `riak_modfun_set_module`
unfoldable pub modfun_set_module : Config → ModFun → Option Binary → Cmd (RiakError × ModFun)
modfun_set_module cfg mod_fun v = do
  (err, b) ← set_plain cfg v
  pure (err, record mod_fun { mod_name = b })

-- `riak_modfun_set_function`
unfoldable pub modfun_set_function : Config → ModFun → Option Binary → Cmd (RiakError × ModFun)
modfun_set_function cfg mod_fun v = do
  (err, b) ← set_plain cfg v
  pure (err, record mod_fun { function = b })
