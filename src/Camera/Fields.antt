-- ===== src/Camera/Fields.antt =====
-- The parameters that have a getter and mostly a setter of their own in
-- camera_parameters_manager.cpp.
pub mod Pairs
use ipc_with_cht.Prelude.{
  ℕ, Bool, true, false, Option, none, some, List, [], ◌∷◌, is_empty, ◌==◌, if◌then◌else◌,
}
use ipc_with_cht.Prelude.Bytes.{Bytes}
use ipc_with_cht.Prelude.Text.{codes}
use ipc_with_cht.Prelude.Dict.{lookup}
use ipc_with_cht.Prelude.Integers.{ℤ, pos, negsuc, print_int, parse_int}
use ipc_with_cht.Camera.Store.{Store, Step, default_to, get_parameter, set_parameter}

-- The parameters that are texts.
pub data Field : Type 0 where
  cam_id cht_barcode tenant_id public_ip osd_rule wifi_ssid : Field
  firmware_version camera_status storage_health active_status device_status ai_settings : Field
  mac_address time_zone net_no vs_domain vs_token camera_type : Field
  model brand user_id request_id is_hd image_quality : Field

-- The key and the default of the getter.
unfoldable pub getter_key : Field → Bytes
getter_key cam_id = codes "camId"
getter_key cht_barcode = codes "chtBarcode"
getter_key tenant_id = codes "tenantId"
getter_key public_ip = codes "publicIp"
getter_key osd_rule = codes "osdRule"
getter_key wifi_ssid = codes "wifiSsid"
getter_key firmware_version = codes "firmwareVersion"
getter_key camera_status = codes "cameraStatus"
getter_key storage_health = codes "storageHealth"
getter_key active_status = codes "activeStatus"
getter_key device_status = codes "deviceStatus"
getter_key ai_settings = codes "aiSettings"
getter_key mac_address = codes "macAddress"
getter_key time_zone = codes "timezone"
getter_key net_no = codes "netNo"
getter_key vs_domain = codes "vsDomain"
getter_key vs_token = codes "vsToken"
getter_key camera_type = codes "cameraType"
getter_key model = codes "model"
getter_key brand = codes "brand"
getter_key user_id = codes "userId"
getter_key request_id = codes "requestId"
getter_key is_hd = codes "isHd"
getter_key image_quality = codes "imageQuality"

unfoldable pub getter_default : Field → Bytes
getter_default cam_id = []
getter_default cht_barcode = []
getter_default tenant_id = []
getter_default public_ip = []
getter_default osd_rule = codes "yyyy-MM-dd HH:mm:ss"
getter_default wifi_ssid = []
getter_default firmware_version = []
getter_default camera_status = codes "offline"
getter_default storage_health = codes "unknown"
getter_default active_status = codes "0"
getter_default device_status = codes "offline"
getter_default ai_settings = codes "{}"
getter_default mac_address = codes "00:00:00:00:00:00"
getter_default time_zone = codes "51"
getter_default net_no = []
getter_default vs_domain = []
getter_default vs_token = []
getter_default camera_type = codes "IPCAM"
getter_default model = codes "DefaultModel"
getter_default brand = codes "DefaultBrand"
getter_default user_id = []
getter_default request_id = []
getter_default is_hd = codes "0"
getter_default image_quality = codes "0"

unfoldable pub get_field : Field → Store → Bytes
unfolding get_parameter getter_key getter_default
get_field f s = get_parameter (getter_key f) (getter_default f) s

-- The key that the setter writes; `none`: there is no setter.
unfoldable pub setter_key : Field → Option Bytes
setter_key cam_id = some (codes "camId")
setter_key cht_barcode = some (codes "chtBarcode")
setter_key tenant_id = some (codes "tenantId")
setter_key public_ip = some (codes "publicIp")
setter_key osd_rule = some (codes "osdRule")
setter_key wifi_ssid = none
setter_key firmware_version = none
setter_key camera_status = none
setter_key storage_health = none
setter_key active_status = some (codes "activeStatus")
setter_key device_status = some (codes "deviceStatus")
setter_key ai_settings = some (codes "aiSettings")
setter_key mac_address = none
setter_key time_zone = some (codes "timezone")
setter_key net_no = some (codes "netNo")
setter_key vs_domain = some (codes "vsDomain")
setter_key vs_token = some (codes "vsToken")
setter_key camera_type = some (codes "cameraType")
setter_key model = some (codes "model")
setter_key brand = some (codes "brand")
setter_key user_id = some (codes "userId")
setter_key request_id = some (codes "requestId")
setter_key is_hd = some (codes "isHd")
setter_key image_quality = some (codes "imageQuality")

unfoldable pub set_field : Field → ℕ → Bytes → Store → Option Step
unfolding set_parameter setter_key
set_field f now v s = elim (setter_key f) [ none ↦ none | some k ↦ some (set_parameter now k v s) ]

-- A camera without a name, or with an empty one, is unknown.
unfoldable pub get_camera_name : Store → Bytes
get_camera_name s = elim (lookup (codes "cameraName") (Store.parameters s)) [
  | none ↦ codes "Unknown Camera"
  | some v ↦ if is_empty v then codes "Unknown Camera" else v
]

unfoldable pub set_camera_name : ℕ → Bytes → Store → Step
unfolding set_parameter
set_camera_name now v s = set_parameter now (codes "cameraName") v s

-- `getParameter` of an `int`: the default, if the text does not start with one.
unfoldable pub get_int : Bytes → ℤ → Store → ℤ
unfolding parse_int
get_int k d s = elim (lookup k (Store.parameters s)) [
  | none ↦ d
  | some t ↦ default_to d (parse_int t)
]

unfoldable pub get_cam_sid : Store → ℤ
unfolding get_int
get_cam_sid s = get_int (codes "camSid") (pos 0) s

unfoldable pub set_cam_sid : ℕ → ℤ → Store → Step
unfolding set_parameter print_int
set_cam_sid now i s = set_parameter now (codes "camSid") (print_int i) s

-- `getParameter` of a `bool` whose default is false: an istream takes 0 and 1 and fails on every
-- other number.
abbrev pub is_one : Option ℤ → Bool
is_one (some (pos n)) = n == 1
is_one (some (negsuc n)) = false
is_one none = false

unfoldable pub get_flag : Bytes → Store → Bool
unfolding parse_int
get_flag k s = elim (lookup k (Store.parameters s)) [ none ↦ false | some t ↦ is_one (parse_int t) ]

abbrev pub flag_text : Bool → Bytes
flag_text true = codes "1"
flag_text false = codes "0"

-- The two flags of the object storage.
pub data Flag : Type 0 where
  hi_oss_status is_check_hioss : Flag

unfoldable pub flag_key : Flag → Bytes
flag_key hi_oss_status = codes "HiOssStatus"
flag_key is_check_hioss = codes "isCheckHioss"

unfoldable pub get_oss_flag : Flag → Store → Bool
unfolding get_flag flag_key
get_oss_flag f s = get_flag (flag_key f) s

unfoldable pub set_oss_flag : Flag → ℕ → Bool → Store → Step
unfolding set_parameter flag_key
set_oss_flag f now b s = set_parameter now (flag_key f) (flag_text b) s
