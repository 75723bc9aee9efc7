-- ===== src/Camera/Buffers.antt =====
-- The buffers of the device, and its start and end (Media/Camera/old/CameraHardware.cpp).
use greatone.Base.{
  ℕ, zero, suc, ◌-◌, ◌%◌, ◌/◌, ◌^◌, Bool, false, Option, none, some, ℤ, pos, negsuc, is_neg, ltb,
  ◌==◌, if◌then◌else◌, of_word, get_elem?, set, length,
}
use greatone.World.{
  device, s_input, query_cap, s_parm, req_bufs, query_buf, queue_buf, stream_on, stream_off,
  open_device, close_device, map_memory, unmap_memory, Prog, done, crash, ret, ◌>>=◌, ◌>>◌, get,
  put, tell, ask, ask_address,
}
use greatone.CommonThread.{is_zero}
use greatone.Camera.{DeviceEnv, CameraHardware, request, written}
use greatone.Camera.Format.{is_minus_one, set_video_params}

-- `MAP_FAILED`, an address of all ones.
abbrev pub map_failed : ℕ
map_failed = 2 ^ 32 - 1

-- How often a loop `for (int i = 0; i < n; i++)` runs.
abbrev pub rounds_of : ℤ → ℕ
rounds_of (pos n) = n
rounds_of (negsuc n) = 0

-- A write to `mMapMem`; behind its five addresses it is undefined.
unfoldable pub store_mapping : (index address len : ℕ) → Prog CameraHardware (Unit {0})
store_mapping index address len s log =
    if ltb index (length s.mem)
    then done tt (record s { mem = set s.mem index address; mem_length = of_word (len % 2 ^ 32) })
        log
    else crash

module _ (env : DeviceEnv) where
  -- `v4l2CheckCapability`. (The name of the driver makes no difference.)
  unfoldable pub check_capability : Prog CameraHardware ℤ
  check_capability = do
    err ← request env query_cap
    caps ← written env.capabilities
    if is_neg err
        then ret (negsuc 0)
        else (if caps % 2 == 0
            then ret (negsuc 0)
            else (if caps / 2 ^ 26 % 2 == 0 then ret (negsuc 0) else ret (pos 0)))

  -- `v4l2setCaptureParams`.
  unfoldable pub set_capture_params : (take_picture : Bool) → Prog CameraHardware ℤ
  set_capture_params take_picture = request env (s_parm take_picture)

  -- `v4l2ReqBufs`.
  unfoldable pub req_buffers : Prog CameraHardware ℤ
  req_buffers = do
    s ← get
    put (record s { buffer_count = pos 5 })
    err ← request env (req_bufs 5)
    granted ← written (λ log. of_word (env.granted log % 2 ^ 32))
    if is_neg err then ret err else (do put (record s { buffer_count = granted }); ret (pos 0))

  -- The loop of `v4l2QueryBuf`, from the index on.
  unfoldable pub query_from : (left index : ℕ) → Prog CameraHardware ℤ
  unfolding store_mapping
  query_from zero index = ret (pos 0)
  query_from (suc left) index = do
    let rest = query_from left (suc index)
    err ← request env (query_buf index)
    len ← written env.length
    offset ← written env.offset
    s ← get
    if is_neg err then ret err else do
      address ← ask_address env.calls (device (map_memory s.handle len offset))
      store_mapping index address len
      if address == map_failed
          then ret (negsuc 0)
          else do queued ← request env (queue_buf index); if is_neg queued then ret queued else rest

  -- `v4l2QueryBuf`.
  unfoldable pub query_buffers : Prog CameraHardware ℤ
  unfolding query_from
  query_buffers = do s ← get; query_from (rounds_of s.buffer_count) 0

  -- `v4l2StartStreaming` and `v4l2StopStreaming`.
  unfoldable pub start_streaming : Prog CameraHardware ℤ
  start_streaming = do err ← request env stream_on; if is_neg err then ret err else ret (pos 0)

  unfoldable pub stop_streaming : Prog CameraHardware ℤ
  stop_streaming = do err ← request env stream_off; if is_neg err then ret err else ret (pos 0)

  -- `munmap` of an entry of `mMapMem`; behind its five addresses the read is undefined.
  unfoldable pub unmap_entry : Option ℕ → Prog CameraHardware ℤ
  unmap_entry none s log = crash
  unmap_entry (some address) s log =
      ask env.calls (device (unmap_memory address s.mem_length)) s log

  -- The loop of `v4l2UnmapBuf`, from the index on.
  unfoldable pub unmap_from : (left index : ℕ) → Prog CameraHardware ℤ
  unfolding unmap_entry
  unmap_from zero index = ret (pos 0)
  unmap_from (suc left) index = do
    let rest = unmap_from left (suc index)
    s ← get
    err ← unmap_entry (get_elem? s.mem index)
    if is_neg err then ret err else rest

  -- `v4l2UnmapBuf`.
  unfoldable pub unmap_buffers : Prog CameraHardware ℤ
  unfolding unmap_from
  unmap_buffers = do s ← get; unmap_from (rounds_of s.buffer_count) 0

  -- A step of `v4l2Init`: its error ends the whole with UNKNOWN_ERROR.
  abbrev or_unknown : Prog CameraHardware ℤ → Prog CameraHardware ℤ → Prog CameraHardware ℤ
  or_unknown step next = do err ← step; if is_neg err then ret env.unknown_error else next

  -- `v4l2Init`.
  unfoldable pub v4l2_init : Prog CameraHardware ℤ
  unfolding check_capability set_capture_params set_video_params req_buffers query_buffers
      start_streaming
  v4l2_init = do
    err ← request env s_input
    if is_minus_one err then ret (negsuc 0) else do
      check_capability
      or_unknown (set_capture_params false) (
          or_unknown (set_video_params env) (
            or_unknown req_buffers
              (or_unknown query_buffers (or_unknown start_streaming (ret (pos 0))))))

  -- `openCameraDev`.
  unfoldable pub open_camera_dev : Prog CameraHardware ℤ
  open_camera_dev s log = elim s.device_id [
    | none ↦ crash
    | some id ↦
        (do
          handle ← ask env.calls (device (open_device (if is_zero id then 0 else 1)))
          put (record s { handle = handle })
          if is_minus_one handle then ret (negsuc 0) else ret (pos 0))
          s log
  ]

  -- `closeCameraDev`.
  unfoldable pub close_camera_dev : Prog CameraHardware ℤ
  unfolding stop_streaming unmap_buffers
  close_camera_dev = do
    stop_streaming
    unmap_buffers
    s ← get
    if is_zero s.handle then ret (pos 0) else do
      tell (device (close_device s.handle))
      put (record s { handle = pos 0 })
      ret (pos 0)
