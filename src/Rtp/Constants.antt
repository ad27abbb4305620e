-- ===== src/Rtp/Constants.antt =====
-- ezviz_stream_bridge/rtp.py, lines 35 to 93: the constants of the video half.
use ezviz_stream_bridge.Prelude.{ℕ, ◌*◌, [], ◌∷◌, List, Bytes}

-- `H264` and `HEVC`. The source compares two strings and refuses any other with a `ValueError`;
-- here the type admits no other.
pub data Codec : Type 0 where
  h264 hevc : Codec

abbrev pub start_code : Bytes
start_code = 0x00 ∷ 0x00 ∷ 0x00 ∷ 0x01 ∷ []

abbrev pub h264_sps : ℕ
h264_sps = 7

abbrev pub h264_pps : ℕ
h264_pps = 8

abbrev pub h264_stap_a : ℕ
h264_stap_a = 24

abbrev pub h264_fu_a : ℕ
h264_fu_a = 28

abbrev pub hevc_vps : ℕ
hevc_vps = 32

abbrev pub hevc_sps : ℕ
hevc_sps = 33

abbrev pub hevc_pps : ℕ
hevc_pps = 34

abbrev pub hevc_ap : ℕ
hevc_ap = 48

abbrev pub hevc_fu : ℕ
hevc_fu = 49

abbrev pub hevc_single_nal_max : ℕ
hevc_single_nal_max = 47

abbrev pub h264_single_nal_max : ℕ
h264_single_nal_max = 23

abbrev pub h264_fu_header : ℕ
h264_fu_header = 2

abbrev pub hevc_nal_header : ℕ
hevc_nal_header = 2

abbrev pub hevc_fu_header : ℕ
hevc_fu_header = 3

abbrev pub detection_bytes : ℕ
detection_bytes = 2

abbrev pub h264_profiles : List ℕ
h264_profiles =
    44 ∷ 66 ∷ 77 ∷ 83 ∷ 86 ∷ 88 ∷ 100 ∷ 110 ∷ 118 ∷ 122 ∷ 128 ∷ 134 ∷ 135 ∷ 138 ∷ 139 ∷ 244 ∷ []

abbrev pub rtp_header_bytes : ℕ
rtp_header_bytes = 12

abbrev pub rtp_version : ℕ
rtp_version = 2

abbrev pub max_nal_bytes : ℕ
max_nal_bytes = 4 * 1024 * 1024

abbrev pub sample_bytes : ℕ
sample_bytes = 32
