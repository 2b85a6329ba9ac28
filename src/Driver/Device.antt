-- ===== src/Driver/Device.antt =====
-- The audio device that the driver offers (driver/src/device.hpp, driver/src/device.cpp) and the
-- entry point of the plug-in (driver/src/plugin.cpp), over the classes of libASPL, which are a
-- parameter.
use noise_ai.Base.{ℕ, Bool, true, false, not, if◌then◌else◌, Option, none, some, List}
use noise_ai.Engine.ModelPath.{codes}
use noise_ai.Driver.{IoHandler}

-- The fields that the code sets; the library has defaults for its others.
pub record DeviceParameters : Type 0 where
  pub name : List ℕ
  pub manufacturer : List ℕ
  pub device_uid : List ℕ
  pub model_uid : List ℕ
  pub sample_rate : ℕ
  pub channel_count : ℕ
  pub enable_mixing : Bool

pub data Direction : Type 0 where
  input output : Direction

-- `kAudioFormatLinearPCM`, and the flags for floating point and for packed samples.
pub data FormatId : Type 0 where
  linear_pcm : FormatId

pub record FormatFlags : Type 0 where
  pub is_float : Bool
  pub is_packed : Bool

pub record StreamFormat : Type 0 where
  pub sample_rate : ℕ
  pub format_id : FormatId
  pub format_flags : FormatFlags
  pub bits_per_channel : ℕ
  pub channels_per_frame : ℕ
  pub bytes_per_frame : ℕ
  pub frames_per_packet : ℕ
  pub bytes_per_packet : ℕ

pub record StreamParameters : Type 0 where
  pub direction : Direction
  pub format : StreamFormat

-- libASPL: `World` stands for the state of its objects, the other types for shared pointers.
pub record Aspl (F World Context Device Handler Plugin Driver Reference : Type 0) : Type 0 where
  pub make_context : World → Context × World
  pub make_device : Context → DeviceParameters → World → Device × World
  -- `std::make_shared` of a handler.
  pub share : IoHandler F → World → Handler × World
  pub set_io_handler : Device → Handler → World → World
  pub set_control_handler : Device → Handler → World → World
  pub add_stream_with_controls : Device → StreamParameters → World → World
  pub make_plugin : Context → World → Plugin × World
  pub add_device : Plugin → Device → World → World
  pub make_driver : Context → Plugin → World → Driver × World
  pub get_reference : Driver → Reference

unfoldable pub device_params : DeviceParameters
device_params = record {
  name = codes "NoiseAI Microphone";
  manufacturer = codes "NoiseAI";
  device_uid = codes "NoiseAI_VirtualMic_UID";
  model_uid = codes "NoiseAI_Model";
  sample_rate = 48000;
  channel_count = 2;
  enable_mixing = false;
}

unfoldable pub stream_params : StreamParameters
stream_params = record {
  direction = Direction.input;
  format = record {
    sample_rate = 48000;
    format_id = linear_pcm;
    format_flags = record { is_float = true; is_packed = true };
    bits_per_channel = 32;
    channels_per_frame = 2;
    bytes_per_frame = 8;
    frames_per_packet = 1;
    bytes_per_packet = 8;
  };
}

-- `IOHandler()`.
unfoldable pub new_handler : {F : Type 0} → IoHandler F
new_handler = record {
  shared_buffer = none;
  reconnect_countdown = 0;
  was_connected = false;
  was_underrun = false;
  was_ever_connected = false;
  last_heartbeat = 0;
  stale_count = 0;
}

pub record DriverComponents (Context Device Plugin Driver : Type 0) : Type 0 where
  pub context : Context
  pub plugin : Plugin
  pub device : Device
  pub driver : Driver

module _ {F World Context Device Handler Plugin Driver Reference : Type 0}
    (a : Aspl F World Context Device Handler Plugin Driver Reference) where
  -- `CreateNoiseAIDriver`.
  unfoldable pub create_driver : World → DriverComponents Context Device Plugin Driver × World
  create_driver w0 =
      let (context, w1) = a.make_context w0 in
      let (device, w2) = a.make_device context device_params w1 in
      let (handler, w3) = a.share new_handler w2 in
      let w4 = a.set_control_handler device handler (a.set_io_handler device handler w3) in
      let w5 = a.add_stream_with_controls device stream_params w4 in
      let (plugin, w6) = a.make_plugin context w5 in
      let w7 = a.add_device plugin device w6 in
      let (driver, w8) = a.make_driver context plugin w7 in
      (record { context = context; plugin = plugin; device = device; driver = driver }, w8)

  -- `static auto components`: the ones of the first call, `none` before it.
  abbrev pub first_components :
      Option (DriverComponents Context Device Plugin Driver)
      → World
      → DriverComponents Context Device Plugin Driver × World
  first_components none w = create_driver w
  first_components (some components) w = (components, w)

  -- `NoiseAI_Create`, where `is_plugin` is whether the type asked for is that of an audio server
  -- plug-in. `none` is a null pointer.
  unfoldable pub noise_ai_create :
      Bool
      → Option (DriverComponents Context Device Plugin Driver)
      → World
      → Option Reference × Option (DriverComponents Context Device Plugin Driver) × World
  noise_ai_create is_plugin components w =
      if not is_plugin
      then (none, components, w)
      else (let (made, w') = first_components components w in
          (some (a.get_reference made.driver), some made, w'))
