-- ===== src/Tests/Exports.antt =====
-- The theorems on the package's exports, at concrete names.
use spinev_ble.Base.{has_name, ◌≡◌, refl, ◌⊎◌, true, false}
use spinev_ble.Exports.{transport_exports, transport_attribute, package_attribute}
use spinev_ble.Exports.Served.{is_due, package_attribute-is_due}

package_attribute-is_due_example :
    (is_due false "BleTransport" (package_attribute false "BleTransport") ≡ true)
    × ((has_name "BleTransport" transport_exports ≡ false)
        ⊎ (package_attribute false "BleTransport" ≡ transport_attribute false "BleTransport"))
package_attribute-is_due_example = package_attribute-is_due false "BleTransport" (refl)
