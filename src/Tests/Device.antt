-- ===== src/Tests/Device.antt =====
-- A device with small tables.
use libroce.Base.{◌^◌, ◌≡◌, ◌≢◌, refl, [], replicate, pos, einval, true, false, arith}
use libroce.Sge.{power_of_2}
use libroce.Resource.{Resource}
use libroce.Qp.{smi}
use libroce.Device.{DeviceAttr, Device, Host, is_valid_attr, resources, init_device}
use libroce.Device.Made.{IsReady, is_accepted, init_device-IsReady}

abbrev host : Host
host = record { page_size = 4096; lock = λ i. pos 0; memory = λ i. true; smi = 500; gsi = 600 }

abbrev attr : DeviceAttr
attr = record {
  device_cap_flags = 0;
  max_mr_size = 2 ^ 20;
  max_qp = 8;
  max_sge = 16;
  max_cq = 4;
  max_mr = 4;
  max_pd = 2;
  max_mw = 0;
  max_ah = 4;
  max_srq = 0;
  max_inline_data = 64;
  max_pkeys = 1;
  phys_port_cnt = 1;
}

abbrev untouched : Resource
untouched = record { size = 0; addr = []; handle = λ p. 0 }

abbrev device : Device
device = record {
  attr = attr;
  tables = replicate 7 untouched;
  smi = 0;
  gsi = 0;
  qp_type = λ p. smi;
}

init_device-IsReady_example :
    (is_accepted host attr ≡ true
      → (d' : Device) × (init_device host attr device ≡ (pos 0, d')) × IsReady host attr d')
    × (is_accepted host attr ≡ false
        → ((init_device host attr device).0 ≢ pos 0)
          × ((init_device host attr device).1.attr ≡ device.attr))
init_device-IsReady_example =
    init_device-IsReady host attr device refl (omega arith) (omega arith) (omega arith)

accepted : is_accepted host attr ≡ true
unfolding resources is_valid_attr power_of_2
accepted = refl

-- With 64 elements in a work request.
too_many : (init_device host (record attr { max_sge = 64 }) device).0 ≡ einval
unfolding init_device is_valid_attr power_of_2
too_many = refl
