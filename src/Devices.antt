-- ===== src/Devices.antt =====
-- ezviz_stream_bridge/devices.py: the listing of the cameras of an account.
use ezviz_stream_bridge.Prelude.{
  Bool, true, false, ◌||◌, ◌&&◌, List, [], ◌∷◌, ltb, ◌==◌, if◌then◌else◌,
}
use ezviz_stream_bridge.Config.Document.{
  Text, Json, object, Members, no_members, member, get, Python, strip,
}
use ezviz_stream_bridge.Config.{str_or_empty}

-- `CameraListing`
pub record CameraListing : Type 0 where
  pub serial : Text
  pub name : Text
  pub model : Text

abbrev pub key_device_infos : Text
key_device_infos = b'd' ∷ b'e' ∷ b'v' ∷ b'i' ∷ b'c' ∷ b'e' ∷ b'I' ∷ b'n' ∷ b'f' ∷ b'o' ∷ b's' ∷ []

abbrev pub key_name : Text
key_name = b'n' ∷ b'a' ∷ b'm' ∷ b'e' ∷ []

abbrev pub key_device_type : Text
key_device_type = b'd' ∷ b'e' ∷ b'v' ∷ b'i' ∷ b'c' ∷ b'e' ∷ b'T' ∷ b'y' ∷ b'p' ∷ b'e' ∷ []

-- `s < t` of texts
unfoldable pub text_less : Text → Text → Bool
text_less s [] = false
text_less [] (b ∷ t) = true
text_less (a ∷ s) (b ∷ t) = ltb a b || (a == b && text_less s t)

-- The stable sort by serial, one entry after the other.
unfoldable pub insert_listing : CameraListing → List CameraListing → List CameraListing
insert_listing entry [] = entry ∷ []
insert_listing entry (next ∷ listings) =
    let rest = insert_listing entry listings in
    if text_less next.serial entry.serial then next ∷ rest else entry ∷ next ∷ listings

unfoldable pub sort_listings : List CameraListing → List CameraListing
sort_listings [] = []
sort_listings (entry ∷ listings) = insert_listing entry (sort_listings listings)

module _ (py : Python) where
  -- An entry with a usable `deviceInfos` block, ahead of the others.
  abbrev pub listing_of : Text → Json → List CameraListing → List CameraListing
  listing_of serial (object info) listings =
      record {
        serial = serial;
        name = strip py (str_or_empty py (get info key_name));
        model = strip py (str_or_empty py (get info key_device_type));
      }
      ∷ listings
  listing_of serial json listings = listings

  abbrev pub device_of : Text → Json → List CameraListing → List CameraListing
  device_of serial (object device) listings =
      listing_of serial (get device key_device_infos) listings
  device_of serial json listings = listings

  -- The loop of `parse_camera_listings`.
  unfoldable pub listings_of : Members → List CameraListing
  listings_of no_members = []
  listings_of (member serial device rest) = device_of serial device (listings_of rest)

  -- `parse_camera_listings`
  unfoldable pub parse_camera_listings : Json → List CameraListing
  parse_camera_listings (object infos) = sort_listings (listings_of infos)
  parse_camera_listings json = []
