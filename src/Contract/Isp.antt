-- ===== src/Contract/Isp.antt =====
-- crates/contract/src/isp.rs: the carrier enum, its normalization map and its labels.
use multi_proxy.Prelude.{
  ℕ, ◌≡◌, refl, ◌↔◌, Bool, true, false, ◌||◌, ◌&&◌, Text, codes, arith, ◌==◌, nat_beq, nat_eq,
  list_eq, leb, if◌then◌else◌, [], ◌∷◌, list_beq,
}
use multi_proxy.Prelude.Equality.{PartialEq}
use mathlib.Core.List.{reverse}

pub data Isp : Type 0 where
  telecom unicom mobile pengboshi cernet broadcast aliyun cstnet unknown : Isp

abbrev pub isp_beq : Isp → Isp → Bool
isp_beq telecom telecom = true
isp_beq unicom unicom = true
isp_beq mobile mobile = true
isp_beq pengboshi pengboshi = true
isp_beq cernet cernet = true
isp_beq broadcast broadcast = true
isp_beq aliyun aliyun = true
isp_beq cstnet cstnet = true
isp_beq unknown unknown = true
isp_beq _ _ = false

pub isp_beq_iff : (a b : Isp) → (isp_beq a b ≡ true) ↔ (a ≡ b)
isp_beq_iff a b = grind arith

instance abbrev pub isp_eq : PartialEq Isp
isp_eq = record { eq_iff = isp_beq_iff; eq = isp_beq }

-- `char::is_whitespace`: the code points with the White_Space property.
unfoldable pub is_whitespace : ℕ → Bool
is_whitespace c =
    (leb 9 c && leb c 13)
    || nat_beq c 32
    || nat_beq c 0x85
    || nat_beq c 0xa0
    || nat_beq c 0x1680
    || (leb 0x2000 c && leb c 0x200a)
    || nat_beq c 0x2028
    || nat_beq c 0x2029
    || nat_beq c 0x202f
    || nat_beq c 0x205f
    || nat_beq c 0x3000

unfoldable pub trim_start : Text → Text
unfolding is_whitespace
trim_start [] = []
trim_start (c ∷ s) = if is_whitespace c then trim_start s else c ∷ s

-- `str::trim`.
unfoldable pub trim : Text → Text
unfolding trim_start
trim s = reverse (trim_start (reverse (trim_start s)))

unfoldable pub from_geocn : Text → Isp
unfolding trim list_beq
from_geocn raw =
    let t = trim raw in
    if t == codes "电信"
    then telecom
    else if t == codes "联通"
    then unicom
    else if t == codes "移动"
    then mobile
    else if t == codes "鹏博士"
    then pengboshi
    else if t == codes "教育网"
    then cernet
    else if t == codes "广电"
    then broadcast
    else if t == codes "阿里云"
    then aliyun
    else if t == codes "科技网"
    then cstnet
    else unknown

unfoldable pub ui_label : Isp → Text
ui_label telecom = codes "Telecom"
ui_label unicom = codes "Unicom"
ui_label mobile = codes "Mobile"
ui_label pengboshi = codes "Pengboshi"
ui_label cernet = codes "CERNET"
ui_label broadcast = codes "Broadcast"
ui_label aliyun = codes "Aliyun"
ui_label cstnet = codes "CSTNET"
ui_label unknown = codes "Unknown"

unfoldable pub zh_label : Isp → Text
zh_label telecom = codes "电信"
zh_label unicom = codes "联通"
zh_label mobile = codes "移动"
zh_label pengboshi = codes "鹏博士"
zh_label cernet = codes "教育网"
zh_label broadcast = codes "广电"
zh_label aliyun = codes "阿里云"
zh_label cstnet = codes "科技网"
zh_label unknown = codes "未知"

-- Reading a carrier's Chinese label gives the carrier back, for each of the nine carriers.
pub from_geocn-zh_label : (isp : Isp) → from_geocn (zh_label isp) ≡ isp
unfolding from_geocn zh_label
from_geocn-zh_label telecom = refl
from_geocn-zh_label unicom = refl
from_geocn-zh_label mobile = refl
from_geocn-zh_label pengboshi = refl
from_geocn-zh_label cernet = refl
from_geocn-zh_label broadcast = refl
from_geocn-zh_label aliyun = refl
from_geocn-zh_label cstnet = refl
from_geocn-zh_label unknown = refl
